-- ===== src/MemoryLatency/Run/Kept.antt =====
-- What RunTest of MemoryLatency/MemoryLatency.c leaves of a preallocated array.
use u_arch_test.Prelude.{
  ℕ, ◌+◌, ◌^◌, ◌≤◌, ◌<◌, ◌≡◌, refl, List, Option, none, some, length, u32, arith, ◌>>=◌,
}
use u_arch_test.MemoryLatency.Machine.{Machine, Calls, IsLawful}
use u_arch_test.MemoryLatency.Chase.{scale_iterations}
use u_arch_test.MemoryLatency.Run.{list_size_of, Report, run_new, report, no_memory, run_test}
use u_arch_test.MemoryLatency.Run.Laws.{Fits, run_on-Measures}

-- A test leaves a preallocated array of the same length, or none.
abbrev pub Kept : Option (List ℕ) → Option (List ℕ) → Type 0
Kept none after = after ≡ none
Kept (some a) after = (b : List ℕ) × (after ≡ some b) × (length b ≡ length a)

abbrev pub array_of : {Real : Type 0} → Option (Report Real) → Option (List ℕ)
array_of none = none
array_of (some r) = r.preallocated

module _ (m : Machine) (size iterations : ℕ) (some_kb : 0 < size) (small : size < 2 ^ 22)
    (few : u32 (scale_iterations m.floats size iterations) < 2 ^ 31) where
  run_new-Kept :
      (block : Option (List ℕ)) (calls : Calls)
      → ((a : List ℕ) → block ≡ some a → list_size_of size ≤ length a)
      → array_of (run_new m size iterations block calls) ≡ none
  unfolding run_new no_memory report
  run_new-Kept none calls room = refl
  run_new-Kept (some a) calls room =
      let run = run_on-Measures m size iterations some_kb small few a calls (room a refl) in
      rw (run.returns, ◌>>=◌) refl

  pub run_test-Kept :
      IsLawful m
      → (preallocated : Option (List ℕ)) (calls : Calls)
      → Fits m size iterations some_kb small few preallocated
      → Kept preallocated (array_of (run_test m size iterations preallocated calls))
  unfolding run_test report
  run_test-Kept lawful none calls room =
      run_new-Kept (m.malloc calls.allocated (list_size_of size))
        (record calls { allocated = calls.allocated + 1 })
        (λ a e. omega (arith, lawful.block calls.allocated (list_size_of size) a e))
  run_test-Kept lawful (some a) calls room =
      let run = run_on-Measures m size iterations some_kb small few a calls room in
      (run.memory, rw (run.returns, ◌>>=◌) refl, run.same_length)
