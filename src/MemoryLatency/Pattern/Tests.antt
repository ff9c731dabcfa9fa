-- ===== src/MemoryLatency/Pattern/Tests.antt =====
-- Examples of FillPatternArr.
use u_arch_test.Prelude.{ℕ, ◌+◌, ◌*◌, ◌<◌, ◌≡◌, refl, List, [], ◌∷◌, some, store, replicate, arith}
use u_arch_test.MemoryLatency.Pattern.{identity_loop, pick, shuffle_loop, fill, fill_pattern_arr}
use u_arch_test.MemoryLatency.Pattern.Cycle.{stride, Link}
use u_arch_test.MemoryLatency.Pattern.Fill.{IsFilled, fill_pattern_arr-IsFilled}
use u_arch_test.MemoryLatency.Pattern.Bias.{fill_last}

abbrev pub draws : ℕ → ℕ
draws k = k * 7 + 3

abbrev pub blank : ℕ → List ℕ
blank n = replicate n 0

fill_run : fill draws 1 4 (blank 4) 0 ≡ some (3 ∷ 2 ∷ 0 ∷ 1 ∷ [], 2)
unfolding fill identity_loop store shuffle_loop pick
fill_run = refl

fill_pattern_arr-IsFilled_example :
    IsFilled 16 8 (blank 128) (fill_pattern_arr draws (blank 128) 128 64 0)
fill_pattern_arr-IsFilled_example =
    fill_pattern_arr-IsFilled draws (blank 128) 128 64 0 (omega arith) (omega arith) (omega arith)
      (omega arith)

fill_last_example :
    (out : List ℕ) × (drawn' : ℕ) × (y : ℕ) × (fill draws 2 4 (blank 8) 0 ≡ some (out, drawn'))
    × Link out (stride 2) 3 y
    × (y < 2)
fill_last_example =
    fill_last draws 2 2 (blank 8) 0 (omega arith) (omega arith) (omega arith) (omega arith)
      (omega arith)
