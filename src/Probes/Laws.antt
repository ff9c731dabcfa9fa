-- ===== src/Probes/Laws.antt =====
-- What the three probes of tools/ print.
use u_arch_test.Prelude.{
  ℕ, zero, suc, ◌+◌, ◌*◌, ◌^◌, ◌≤◌, ◌<◌, ◌≡◌, refl, ap, ◌∙◌, [], ◌∷◌, u64, sub64, u64_small, arith,
}
use u_arch_test.Probes.{
  Counter, cycle, time, instret, sink_loop, CounterLine, counter_line, riscv_cycle_probe,
  riscv_cycle_time_probe, riscv_counter_probe,
}

-- i + (i + 1) + ..., `left` numbers.
series : (left i : ℕ) → ℕ
series zero i = 0
series (suc left) i = i + series left (i + 1)

sink_loop-series :
    (left i sink : ℕ)
    → i + left < 2 ^ 64
    → sink < 2 ^ 64
    → sink_loop left i sink ≡ u64 (sink + series left i)
unfolding sink_loop series
sink_loop-series zero i sink h small = omega arith
sink_loop-series (suc left) i sink h small =
    rw (u64_small (i + 1) (omega arith))
      (sink_loop-series left (i + 1) (u64 (sink + i)) (omega arith) (omega arith) ∙ omega arith)

twice_series : (left i : ℕ) → 2 * series left i + left ≡ left * left + 2 * (left * i)
unfolding series
twice_series zero i = omega arith
twice_series (suc left) i = omega (arith, twice_series left (i + 1))

sink_value : sink_loop 100000 0 0 ≡ 4999950000
sink_value =
    sink_loop-series 100000 0 0 (omega arith) (omega arith) ∙ omega (arith, twice_series 100000 0)

counter_line_delta : (a b d : ℕ) → a < 2 ^ 64 → d < 2 ^ 64 → b ≡ u64 (a + d) → sub64 b a ≡ d
counter_line_delta a b d ha hd e = omega arith

-- A line with the values of a counter at two readings, and the steps that it made between them.
abbrev pub says :
    (reading : ℕ → Counter → ℕ) (steps : (from to : ℕ) → Counter → ℕ)
    → Counter
    → (from to : ℕ) → CounterLine
says reading steps c from to = record {
  counter = c;
  before = reading from c;
  after = reading to c;
  delta = steps from to c;
}

module _ (reading : ℕ → Counter → ℕ) (steps : (from to : ℕ) → Counter → ℕ)
    (words : (k : ℕ) (c : Counter) → reading k c < 2 ^ 64)
    (fewer : (from to : ℕ) (c : Counter) → steps from to c < 2 ^ 64)
    (counts : (from to : ℕ) (c : Counter)
      → from ≤ to
      → reading to c ≡ u64 (reading from c + steps from to c)) where
  counter_line-says :
      (c : Counter) (from to : ℕ)
      → from ≤ to
      → counter_line c (reading from c) (reading to c) ≡ says reading steps c from to
  unfolding counter_line
  counter_line-says c from to le =
      ap (λ d. record { counter = c; before = reading from c; after = reading to c; delta = d })
        (counter_line_delta (reading from c) (reading to c) (steps from to c) (words from c)
          (fewer from to c) (counts from to c le))

  -- On counters of 64 bits that wrap, where a counter makes fewer than 2 ^ 64 steps between two
  -- readings: each of the three probes prints 4999950000 for its sum, and then a line for each of its
  -- counters with the values before and after the loop and, wrapped or not, the number of
  -- steps that just this counter made in between.
  pub probes_lem :
      (riscv_cycle_probe reading ≡ (4999950000, says reading steps cycle 0 1 ∷ []))
      × (riscv_cycle_time_probe reading
          ≡ (4999950000, says reading steps cycle 0 2 ∷ says reading steps time 1 3 ∷ []))
      × (riscv_counter_probe reading ≡ (
        4999950000,
        says reading steps cycle 0 3
            ∷ says reading steps time 1 4
            ∷ says reading steps instret 2 5
            ∷ [],
      ))
  unfolding riscv_cycle_probe riscv_cycle_time_probe riscv_counter_probe
  probes_lem = (
    rw (sink_value, counter_line-says cycle 0 1 (omega arith)) refl,
    rw
        (
          sink_value,
          counter_line-says cycle 0 2 (omega arith),
          counter_line-says time 1 3 (omega arith),
        )
        refl,
    rw
        (
          sink_value,
          counter_line-says cycle 0 3 (omega arith),
          counter_line-says time 1 4 (omega arith),
          counter_line-says instret 2 5 (omega arith),
        )
        refl,
  )
