-- ===== src/MemoryBandwidth/Measure/Tests.antt =====
-- Examples of MeasureBw.
use u_arch_test.Prelude.{
  ℕ, ◌+◌, ◌-◌, ◌*◌, ◌/◌, ◌%◌, ◌≤◌, ◌<◌, ◌≡◌, refl, if◌then◌else◌, Bool, true, false, [], ◌∷◌, not,
  ◌==◌, arith,
}
use u_arch_test.Timing.Tests.{integers, morning, later}
use u_arch_test.MemoryBandwidth.Measure.{
  Environment, no_memory, elements, measure_bw, thread_arr, thread_data_block, test_threads,
}
use u_arch_test.MemoryBandwidth.Measure.Laws.{IsCeil, HasMemory, measure_bw_leak, elements_private}

-- Every array but number 2 can be had where `short` is true, and every one where it is not.
abbrev pub environment : Bool → Environment
environment short = record {
  floats = integers;
  ceil_quot = λ a b. (a + b - 1) / b;
  memalign = λ k. if short then not (k == 2) else true;
  malloc = λ k. true;
  before = morning;
  after = later;
}

environment-IsCeil : IsCeil (environment false)
environment-IsCeil = record {
  upper = λ a b ha hb hb'. upper_quot a b hb;
  lower = λ a b ha hb hb'. lower_quot a b hb;
}
  where
    upper_quot : (a b : ℕ) → 0 < b → a ≤ (a + b - 1) / b * b
    upper_quot a b h = grind arith

    lower_quot : (a b : ℕ) → 0 < b → (a + b - 1) / b * b < a + b
    lower_quot a b h = grind arith

pub environment-HasMemory : (short : Bool) → HasMemory (environment short)
environment-HasMemory short = record { threads_had = refl; data_had = refl }

measure_bw_leak_example :
    measure_bw (environment true) 8 10 3 false
    ≡ no_memory (thread_arr 1 ∷ thread_arr 0 ∷ thread_data_block ∷ test_threads ∷ [])
measure_bw_leak_example =
    measure_bw_leak (environment true) 8 10 3 2 (omega arith) (omega arith)
      (environment-HasMemory true) (λ j h. ground arith) refl

elements_private_example :
    (elements (environment false) 10 1 4 false * 4 % 512 ≡ 0)
    × (10 * 1024 ≤ elements (environment false) 10 1 4 false * 4 * 4)
    × (elements (environment false) 10 1 4 false * 4 * 4 < 10 * 1024 + 4 * 1024)
elements_private_example =
    elements_private (environment false) 10 1 4 environment-IsCeil (omega arith) (omega arith)
      (omega arith)
