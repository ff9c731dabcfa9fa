-- ===== src/MemoryLatency/Main.antt =====
-- `main` of MemoryLatency/MemoryLatency.c from the command line to the output: the options, the
-- mapping of huge pages, and the four kinds of tests, each on the array as the test before it left
-- it. `none` is an access out of bounds or another step that C leaves undefined.
pub mod Laws
pub mod Regions
pub mod Parallel
pub mod Pages
mod Tests
use u_arch_test.Prelude.{
  ℕ, zero, suc, ◌+◌, ◌*◌, ltb, leb, ◌==◌, if◌then◌else◌, ◌||◌, List, [], ◌∷◌, Option, none, some,
  length, get_elem?, u32, store, ◌>>=◌,
}
use u_arch_test.Prelude.Int.{ℤ}
use u_arch_test.Timing.{Timespec}
use u_arch_test.MemoryLatency.Machine.{Machine, Calls}
use u_arch_test.MemoryLatency.Options.{
  Options, defaults, TestFunc, StlfFunc, Parsed, exits, parsed, null_read, parse_loop,
}
use u_arch_test.MemoryLatency.Plan.{default_test_sizes, tlb_test_sizes, max_mem_required}
use u_arch_test.MemoryLatency.Run.{Report, run_test}
use u_arch_test.MemoryLatency.Asm.{run_asm_test}
use u_arch_test.MemoryLatency.Tlb.{run_tlb_test}
use u_arch_test.MemoryLatency.Mlp.{run_mlp_test}
use u_arch_test.MemoryLatency.Stlf.{StlfEnded, run_stlf_test}
use Prim.Native.String.{String}

-- What `main` takes from outside beside the machine: the 32-bit slots that mmap and posix_memalign
-- give for a number of bytes, the memory for the results and for the store forwarding test, and the
-- assembly functions.
pub record Platform (Real : Type 0) : Type 0 where
  pub mmap : (bytes : ℕ) → Option (List ℕ)
  pub memalign : (bytes : ℕ) → Option (List ℕ)
  pub results : (slots : ℕ) → Option (List Real)
  pub preplatencyarr : List ℕ → ℕ → List ℕ
  pub latencytest : ℕ → List ℕ → ℕ
  pub stlf_func : StlfFunc → ℕ → List ℕ → List ℕ
  pub stlf_readings : ℕ → List ℕ → Timespec × Timespec
  pub stlf_block : Option (List ℕ)
  pub stlf_unset : Real

-- How `main` ends: early with a code, or with 0 and what it printed.
pub data Ended (Real : Type 0) : Type 0 where
  returns : (code : ℕ) → Ended Real
  latencies : List (ℕ × Real) → Ended Real
  stlf_table : StlfEnded Real → Ended Real
  bandwidths : List (List Real) → Ended Real

-- What mmap gave, or else what posix_memalign gave.
pub first_block : (mapped aligned : Option (List ℕ)) → Option (Option (List ℕ))
first_block (some a) aligned = some (some a)
first_block none (some a) = some (some a)
first_block none none = none

module _ (m : Machine) (s : Platform m.floats.Real) (o : Options) where
  abbrev pub Real : Type 0
  Real = m.floats.Real

  -- `hugePagesArr`; the outer `none` is the early return.
  pub huge_pages_arr : Option (Option (List ℕ))
  huge_pages_arr =
      let bytes = max_mem_required o.max_test_size_mb in
      if o.huge_pages then first_block (s.mmap bytes) (s.memalign bytes) else some none

  -- What `testFunc` points to.
  pub test_func :
      TestFunc
      → (size_kb : ℕ) (preallocated : Option (List ℕ)) → Calls
      → Option (Report m.floats.Real)
  test_func TestFunc.run_test size_kb preallocated calls =
      run_test m size_kb o.iterations preallocated calls
  test_func TestFunc.run_asm_test size_kb preallocated calls =
      run_asm_test m s.preplatencyarr s.latencytest size_kb o.iterations preallocated calls

  -- The loop over the sizes, which stops at the first one above the limit.
  pub region_lines : List ℕ → Option (List ℕ) → Calls → Option (List (ℕ × Real))
  region_lines [] preallocated calls = some []
  region_lines (size ∷ more) preallocated calls =
      let line = (do
        r ← test_func o.test_func size preallocated calls
        rest ← region_lines more r.preallocated r.calls
        some ((size, r.latency) ∷ rest)) in
      if (o.max_test_size_mb == 0) || leb size (u32 (o.max_test_size_mb * 1024))
      then line
      else some []

  -- The loop over the numbers of pages.
  pub tlb_lines : List ℕ → Option (List ℕ) → Calls → Option (List (ℕ × Real))
  tlb_lines [] preallocated calls = some []
  tlb_lines (entries ∷ more) preallocated calls = do
    r ← run_tlb_test m entries o.iterations preallocated calls
    rest ← tlb_lines more r.preallocated r.calls
    some ((entries, r.latency) ∷ rest)

  -- The loops that fill the results of the parallelism test, with `left` rounds of the inner one to
  -- go.
  pub mlp_columns :
      (size_idx size left parallelism : ℕ) → List Real → Calls → Option (List Real × Calls)
  mlp_columns size_idx size zero parallelism results calls = some (results, calls)
  mlp_columns size_idx size (suc left) parallelism results calls = do
    r ← run_mlp_test m size o.iterations (parallelism + 1) calls
    results' ← store results (size_idx * o.mlp_test + parallelism) r.bandwidth
    mlp_columns size_idx size left (parallelism + 1) results' r.calls

  pub mlp_rows : List ℕ → (size_idx : ℕ) → List Real → Calls → Option (List Real × Calls)
  mlp_rows [] size_idx results calls = some (results, calls)
  mlp_rows (size ∷ more) size_idx results calls = do
    row ← mlp_columns size_idx size o.mlp_test 0 results calls
    mlp_rows more (size_idx + 1) row.0 row.1

  -- The loop that prints a row, `size_idx < default_test_sizes[size_idx]`, on the sizes from
  -- `size_idx` on. Where none is left the test reads past the sizes.
  pub mlp_print_row : List ℕ → (size_idx parallelism : ℕ) → List Real → Option (List Real)
  mlp_print_row [] size_idx parallelism results = none
  mlp_print_row (size ∷ more) size_idx parallelism results =
      let shown = (do
        value ← get_elem? results (size_idx * o.mlp_test + parallelism)
        rest ← mlp_print_row more (size_idx + 1) parallelism results
        some (value ∷ rest)) in
      if ltb size_idx size then shown else some []

  pub mlp_print : (left parallelism : ℕ) → List Real → Option (List (List Real))
  mlp_print zero parallelism results = some []
  mlp_print (suc left) parallelism results = do
    row ← mlp_print_row default_test_sizes 0 parallelism results
    rest ← mlp_print left (parallelism + 1) results
    some (row ∷ rest)

  -- The parallelism test. The result of malloc is not tested.
  pub mlp_mode : Calls → Option (Ended m.floats.Real)
  mlp_mode calls = do
    results ← s.results (length default_test_sizes * o.mlp_test)
    filled ←
        mlp_rows default_test_sizes 0 results (record calls { allocated = calls.allocated + 1 })
    rows ← mlp_print o.mlp_test 0 filled.0
    some (bandwidths rows)

  -- All that follows the mapping.
  pub run_tests : (preallocated : Option (List ℕ)) → Calls → Option (Ended m.floats.Real)
  run_tests preallocated calls =
      if ltb 0 o.mlp_test
      then mlp_mode calls
      else if ltb 0 o.stlf
      then (run_stlf_test m.floats s.stlf_unset (s.stlf_func o.stlf_func) s.stlf_readings
            o.iterations s.stlf_block
          >>= λ table. some (stlf_table table))
      else if o.tlb
      then (tlb_lines tlb_test_sizes preallocated calls >>= λ lines. some (latencies lines))
      else if o.single_size == 0
      then (region_lines default_test_sizes preallocated calls >>= λ lines. some (latencies lines))
      else (test_func o.test_func o.single_size preallocated calls >>= λ r.
          some (latencies ((o.single_size, r.latency) ∷ [])))

  pub after_mapping : Option (Option (List ℕ)) → Calls → Option (Ended m.floats.Real)
  after_mapping none calls = some (returns 0)
  after_mapping (some preallocated) calls = run_tests preallocated calls

-- `calls` are those before the start.
pub main :
    (m : Machine) (s : Platform m.floats.Real) (atoi : String → ℤ) (arguments : List String)
    → Calls
    → Option (Ended m.floats.Real)
main m s atoi arguments calls = elim (parse_loop atoi arguments defaults) [
  | exits code ↦ some (returns code)
  | null_read ↦ none
  | parsed o ↦ after_mapping m s o (huge_pages_arr m s o) calls
]
