-- ===== src/MemoryBandwidth/Sweep.antt =====
-- The second half of main in MemoryBandwidth/MemoryBandwidth.c: the measurements that it makes with
-- its options, with the iteration counts that GetIterationCount gives them and the global that it
-- changes, and the table of the bandwidths by size and number of threads.
pub mod Laws
use u_arch_test.Prelude.{
  ℕ, zero, suc, ◌+◌, ◌-◌, ◌*◌, ltb, if◌then◌else◌, Bool, List, [], ◌∷◌, Option, some, get_elem?,
  store, block_slots, next_int, int_value, ◌>>=◌,
}
use u_arch_test.Prelude.Int.{ℤ, pos, negsuc, pos_part, wrap}
use u_arch_test.MemoryBandwidth.Iterations.{get_iteration_count}
use u_arch_test.MemoryBandwidth.Options.{Options}

abbrev pub bandwidth_test_sizes : List ℕ
bandwidth_test_sizes =
    2 ∷ 4 ∷ 8 ∷ 12 ∷ 16 ∷ 24 ∷ 32 ∷ 48 ∷ 64 ∷ 96 ∷ 128 ∷ 192 ∷ 256 ∷ 512 ∷ 600 ∷ 768 ∷ 1024 ∷ 1536
    ∷ 2048 ∷ 3072 ∷ 4096 ∷ 5120 ∷ 6144 ∷ 8192 ∷ 10240 ∷ 12288 ∷ 16384 ∷ 24567 ∷ 32768 ∷ 65536
    ∷ 98304 ∷ 131072 ∷ 262144 ∷ 393216 ∷ 524288 ∷ 1048576 ∷ 1572864 ∷ 2097152 ∷ 3145728 ∷ []

-- `testSizeCount`
abbrev pub test_size_count : ℕ
test_size_count = 39

-- What main prints in its four modes: lines with a size each, the table of bank conflicts, or the
-- results of -autothreads, for one size or for all.
pub data Printed (Real : Type 0) : Type 0 where
  lines : List (ℕ × Real) → Printed Real
  bank_conflicts : Printed Real
  by_threads : List Real → Printed Real
  by_size_and_threads : List Real → Printed Real

-- `measured size_kb iterations threads` is the result of MeasureBw, and `instructions size_kb
-- iterations` that of MeasureInstructionBw; `malloc slots` is what malloc gives for this number of
-- results, NULL included, which is not tested. Indices and counters are ints.
module _ {Real : Type 0} (malloc : (slots : ℕ) → Option (List Real)) (measured : ℕ → ℕ → ℕ → Real)
    (instructions : ℕ → ℕ → Real) where
  -- `results[at] = MeasureBw(size, GetIterationCount(size, threads), threads, shared)`, on the
  -- results and the global.
  pub measure_into : (threads at size : ℕ) → List Real × ℕ → Option (List Real × ℕ)
  measure_into threads at size (results, gb_to_transfer) = do
    (iterations, gb_to_transfer') ← get_iteration_count size threads gb_to_transfer
    results' ← store results at (measured size iterations threads)
    some (results', gb_to_transfer')

  -- The inner loop of -autothreads, over the sizes from index i on.
  pub row_of_sizes : (thread_idx i : ℕ) → List ℕ → List Real × ℕ → Option (List Real × ℕ)
  row_of_sizes thread_idx i [] state = some state
  row_of_sizes thread_idx i (size ∷ more) state = do
    at ← int_value ((thread_idx - 1) * test_size_count + i)
    state' ← measure_into thread_idx at size state
    row_of_sizes thread_idx (i + 1) more state'

  -- The outer loop, with `left` rounds to go, for all sizes and for a single one.
  pub all_threads : (left thread_idx : ℕ) → List Real × ℕ → Option (List Real × ℕ)
  all_threads zero thread_idx state = some state
  all_threads (suc left) thread_idx state = do
    state' ← row_of_sizes thread_idx 0 bandwidth_test_sizes state
    next_idx ← next_int thread_idx
    all_threads left next_idx state'

  pub all_threads_single :
      (single_size left thread_idx : ℕ) → List Real × ℕ → Option (List Real × ℕ)
  all_threads_single single_size zero thread_idx state = some state
  all_threads_single single_size (suc left) thread_idx state = do
    state' ← measure_into thread_idx (thread_idx - 1) single_size state
    next_idx ← next_int thread_idx
    all_threads_single single_size left next_idx state'

  -- The loop of the other modes, which prints a line for each size.
  pub size_lines :
      (result : ℕ → ℕ → Real) (threads : ℕ) → List ℕ → (gb : ℕ) → Option (List (ℕ × Real))
  size_lines result threads [] gb = some []
  size_lines result threads (size ∷ more) gb = do
    (iterations, gb') ← get_iteration_count size threads gb
    rest ← size_lines result threads more gb'
    some ((size, result size iterations) ∷ rest)

  -- The sizes of a mode: all, or the one of -sizekb.
  pub sizes_of : (single_size : ℤ) → List ℕ
  sizes_of (pos zero) = bandwidth_test_sizes
  sizes_of single_size = wrap 64 single_size ∷ []

  pub autothreads_run : (single_size : ℤ) (autothreads gb : ℕ) → Option (Printed Real)
  autothreads_run (pos zero) autothreads gb = do
    (results, gb') ←
        all_threads autothreads 1 (block_slots (malloc (autothreads * test_size_count)), gb)
    some (by_size_and_threads results)
  autothreads_run single_size autothreads gb = do
    (results, gb') ←
        all_threads_single (wrap 64 single_size) autothreads 1
          (block_slots (malloc (autothreads * test_size_count)), gb)
    some (by_threads results)

  unfoldable pub sweep : Options → Option (Printed Real)
  sweep o =
      let threads = wrap 64 o.threads in
      let instruction_lines =
        size_lines instructions threads (sizes_of o.single_size) o.gb_to_transfer in
      let plain =
        size_lines (λ size iterations. measured size iterations threads) threads
          (sizes_of o.single_size) o.gb_to_transfer in
      let auto = autothreads_run o.single_size (pos_part o.autothreads) o.gb_to_transfer in
      if o.test_instruction_bandwidth
      then instruction_lines >>= (λ ls. some (lines ls))
      else if o.test_bank_conflict
      then some bank_conflicts
      else if ltb 0 (pos_part o.autothreads)
      then auto
      else plain >>= (λ ls. some (lines ls))

  -- What the table of -autothreads shows for a size's index and a number of threads.
  pub table_entry : List Real → (size_idx thread_idx : ℕ) → Option Real
  table_entry results size_idx thread_idx = do
    at ← int_value ((thread_idx - 1) * test_size_count + size_idx)
    get_elem? results at
