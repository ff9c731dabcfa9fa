-- ===== src/MemoryLatency/Main/Laws.antt =====
-- `main` of MemoryLatency/MemoryLatency.c with the C test, and its parallelism test.
use u_arch_test.Prelude.{
  ℕ, ◌*◌, ◌/◌, ◌^◌, ◌≤◌, ◌<◌, ◌≡◌, sym, ap, subst, ◌∙◌, List, [], ◌∷◌, Option, none, some, length,
  u32, arith,
}
use u_arch_test.Prelude.Int.{ℤ}
use u_arch_test.MemoryLatency.Machine.{Machine, Calls, IsLawful}
use u_arch_test.MemoryLatency.Chase.{scale_iterations}
use u_arch_test.MemoryLatency.Run.{Report, run_test}
use u_arch_test.MemoryLatency.Run.Laws.{Fits, array_for, Outcome, run_test-Returns}
use u_arch_test.MemoryLatency.Run.Kept.{Kept, array_of, run_test-Kept}
use u_arch_test.MemoryLatency.Options.{Options, parse_loop, parsed, defaults}
use u_arch_test.MemoryLatency.Main.{Platform, after_mapping, huge_pages_arr, main}
use Prim.Native.String.{String}

-- A mapping has the bytes that were asked for.
pub record IsMapping {Real : Type 0} (s : Platform Real) : Type 0 where
  pub mapped : (bytes : ℕ) (a : List ℕ) → s.mmap bytes ≡ some a → length a ≡ bytes / 4
  pub aligned : (bytes : ℕ) (a : List ℕ) → s.memalign bytes ≡ some a → length a ≡ bytes / 4

pub main_parsed :
    (m : Machine) (s : Platform m.floats.Real) (o : Options) (atoi : String → ℤ)
    (arguments : List String) (calls : Calls) (block : Option (Option (List ℕ)))
    → parse_loop atoi arguments defaults ≡ parsed o
    → huge_pages_arr m s o ≡ block
    → main m s atoi arguments calls ≡ after_mapping m s o block calls
unfolding main
main_parsed m s o atoi arguments calls block read e =
    rw (main, read) (ap (λ b. after_mapping m s o b calls) e)

module _ (m : Machine) (iterations : ℕ)
    (few : (size : ℕ) → u32 (scale_iterations m.floats size iterations) < 2 ^ 31) where
  -- Each line of the output is a size with the latency of RunTest on just that size, on the array as
  -- the test before left it; the test keeps what is promised of RunTest.
  abbrev pub Ran : Option (List ℕ) → Calls → List (ℕ × m.floats.Real) → Type 0
  Ran preallocated calls [] = Unit
  Ran preallocated calls ((size, latency) ∷ more) =
      (some_kb : 0 < size) × (small : size < 2 ^ 22) × (r : Report m.floats.Real) × (run_test m size
          iterations preallocated calls
        ≡ some r)
      × (latency ≡ r.latency)
      × Outcome m size iterations some_kb small (few size) preallocated
          (array_for m size iterations some_kb small (few size) preallocated calls) calls r
      × Ran r.preallocated r.calls more

  -- The bytes that a preallocated array has room for.
  abbrev pub HasBytes : ℕ → Option (List ℕ) → Type 0
  HasBytes n none = Unit
  HasBytes n (some a) = length a ≡ n / 4

  HasBytes-Fits :
      (size n : ℕ) (some_kb : 0 < size) (small : size < 2 ^ 22) (preallocated : Option (List ℕ))
      → size * 1024 ≤ n
      → HasBytes n preallocated
      → Fits m size iterations some_kb small (few size) preallocated
  HasBytes-Fits size n some_kb small none fits room = tt
  HasBytes-Fits size n some_kb small (some a) fits room = omega arith

  HasBytes-Kept :
      (n : ℕ) (before after : Option (List ℕ))
      → Kept before after
      → HasBytes n before
      → HasBytes n after
  HasBytes-Kept n none after kept room = subst (HasBytes n) (sym kept) tt
  HasBytes-Kept n (some a) after kept room = subst (HasBytes n) (sym kept.1) (kept.2 ∙ room)

  module _ (lawful : IsLawful m) where
    pub one_test :
        (size n : ℕ) (some_kb : 0 < size) (small : size < 2 ^ 22) (preallocated : Option (List ℕ))
        (calls : Calls)
        → size * 1024 ≤ n
        → HasBytes n preallocated
        → (r : Report m.floats.Real) × (run_test m size iterations preallocated calls ≡ some r)
          × Outcome m size iterations some_kb small
              (few size)
              preallocated
              (array_for m size iterations some_kb small (few size) preallocated calls)
              calls
              r
          × HasBytes n r.preallocated
    one_test size n some_kb small preallocated calls fits room =
        let enough = HasBytes-Fits size n some_kb small preallocated fits room in
        let (r, runs, outcome) =
          run_test-Returns m size iterations some_kb small (few size) lawful preallocated calls
            enough in
        let kept =
          run_test-Kept m size iterations some_kb small (few size) lawful preallocated calls
            enough in
        (
          r,
          runs,
          outcome,
          HasBytes-Kept n preallocated r.preallocated
              (subst (λ (o : Option (Report m.floats.Real)). Kept preallocated (array_of o)) runs
                kept)
              room,
        )
