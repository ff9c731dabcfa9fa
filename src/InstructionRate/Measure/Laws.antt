-- ===== src/InstructionRate/Measure/Laws.antt =====
-- The lines of both mains of InstructionRate, one for each test.
use u_arch_test.Prelude.{
  ℕ, zero, suc, ◌+◌, ◌≡◌, refl, ap, ◌∙◌, true, List, [], ◌∷◌, some, get_elem?, arith,
}
use u_arch_test.Prelude.Int.{pos}
use u_arch_test.Timing.{Floats, Timeval}
use u_arch_test.InstructionRate.Measure.{
  Print, latency_iterations, count_of, measure_function, print_value, print_lines, calibrated,
}
use mathlib.Core.Option.{some-injective, none-ne-some}
use native.Mathlib.Numerals.{add-one}

one_add : (k : ℕ) → 1 + k ≡ suc k
one_add k = omega arith

module _ (fl : Floats) (readings : ℕ → Timeval × Timeval) (scale_factor : ℕ) where
  get_elem?-print_lines :
      (clk_speed : fl.Real) (from : ℕ) (ps : List Print) (k : ℕ) (p : Print)
      → get_elem? ps k ≡ some p
      → get_elem? (print_lines fl readings scale_factor clk_speed from ps) k
        ≡ some (p.label, print_value fl readings scale_factor clk_speed (from + k) p)
  unfolding print_lines
  get_elem?-print_lines clk_speed from [] k p h = absurd (none-ne-some p h)
  get_elem?-print_lines clk_speed from (q ∷ ps) zero p h =
      ap (λ t. some (t.label, print_value fl readings scale_factor clk_speed from t))
        (some-injective q p h)
      ∙ ap (λ i. some (p.label, print_value fl readings scale_factor clk_speed i p)) (omega arith)
  get_elem?-print_lines clk_speed from (q ∷ ps) (suc k) p h =
      get_elem?-print_lines clk_speed (from + 1) ps k p h
      ∙ ap (λ i. some (p.label, print_value fl readings scale_factor clk_speed i p)) (omega arith)

  -- What main prints for a list of tests: first the clock speed, and then for test `k` its text
  -- with a value that comes from clock readings `k + 1` and from the clock speed of the first line.
  pub calibrated_lem :
      (ps : List Print)
      → let clk_speed =
          measure_function fl true
            (count_of scale_factor latency_iterations)
            (fl.real (pos 0))
            (readings 0).0
            (readings 0).1 in
        (get_elem? (calibrated fl readings scale_factor ps) 0
          ≡ some ("Estimated clock speed", clk_speed))
        × ((k : ℕ) (p : Print)
            → get_elem? ps k ≡ some p
            → get_elem? (calibrated fl readings scale_factor ps) (k + 1)
              ≡ some (p.label, print_value fl readings scale_factor clk_speed (k + 1) p))
  unfolding calibrated
  calibrated_lem ps = (refl, λ k p h. rw add-one (line k p h))
    where
      clock : fl.Real
      clock =
          measure_function fl true (count_of scale_factor latency_iterations) (fl.real (pos 0))
            (readings 0).0 (readings 0).1

      line :
          (k : ℕ) (p : Print)
          → get_elem? ps k ≡ some p
          → get_elem? (print_lines fl readings scale_factor clock 1 ps) k
            ≡ some (p.label, print_value fl readings scale_factor clock (suc k) p)
      line k p h =
          get_elem?-print_lines clock 1 ps k p h
          ∙ ap (λ i. some (p.label, print_value fl readings scale_factor clock i p)) (one_add k)
