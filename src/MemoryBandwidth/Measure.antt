-- ===== src/MemoryBandwidth/Measure.antt =====
-- MeasureBw of MemoryBandwidth/MemoryBandwidth.c: the data of the threads, the bandwidth that is
-- computed from it, and the blocks of memory that are allocated and freed on the way.
pub mod Laws
pub mod Tests
use u_arch_test.Prelude.{
  ℕ, zero, suc, ◌+◌, ◌-◌, ◌*◌, ◌/◌, ltb, if◌then◌else◌, Bool, true, false, not, ◌==◌, ◌&&◌, ◌||◌,
  List, [], ◌∷◌, Option, none, some, u64, ◌>>=◌,
}
use u_arch_test.Prelude.Int.{pos}
use u_arch_test.Timing.{Floats, Timespec, elapsed_ns}

-- BandwidthTestThreadData; `array` numbers the block that `arr` points to.
pub record ThreadData : Type 0 where
  pub iterations : ℕ
  pub arr_length : ℕ
  pub start : ℕ
  pub array : ℕ

-- What the function takes from outside: `ceil_quot a b` is `ceil((double)a / (double)b)`, `memalign
-- k` whether posix_memalign succeeds for the array number `k`, and `malloc k` whether the call of
-- malloc number `k`, which is not tested, gives memory: 0 for `testThreads`, 1 for `threadData`.
pub record Environment : Type 1 where
  pub floats : Floats
  pub ceil_quot : ℕ → ℕ → ℕ
  pub memalign : ℕ → Bool
  pub malloc : ℕ → Bool
  pub before : Timespec
  pub after : Timespec

-- The blocks of memory, by the pointers to them.
pub data Block : Type 0 where
  test_arr test_threads thread_data_block : Block
  thread_arr : (i : ℕ) → Block

unfoldable pub same_block : Block → Block → Bool
same_block test_arr test_arr = true
same_block test_threads test_threads = true
same_block thread_data_block thread_data_block = true
same_block (thread_arr i) (thread_arr j) = i == j
same_block _ _ = false

-- A block is added to those that are live, if it is had.
abbrev pub allocate : (had : Bool) → Block → List Block → List Block
allocate true block live = block ∷ live
allocate false block live = live

-- `free` of a block that is not live is undefined.
pub free : Block → List Block → Option (List Block)
free block [] = none
free block (b ∷ live) = elim (same_block block b) [
  | true ↦ some live
  | false ↦ free block live >>= λ rest. some (b ∷ rest)
]

-- `free` of a pointer that can be NULL, where it does nothing.
abbrev pub free_if : (had : Bool) → Block → List Block → Option (List Block)
free_if true block live = free block live
free_if false block live = some live

-- The loop `free(threadData[i].arr)`, with `left` rounds to go.
pub free_loop : (left i : ℕ) → List Block → Option (List Block)
free_loop zero i live = some live
free_loop (suc left) i live = do live' ← free (thread_arr i) live; free_loop left (i + 1) live'

-- The loop over the threads: it stops at the first array that cannot be had, and faults where
-- `threadData` is NULL. `live` are the blocks that are allocated and not freed.
pub data Setup : Type 0 where
  ready : List ThreadData → (live : List Block) → Setup
  failed : (live : List Block) → Setup
  null_data : Setup

pub prepend : ThreadData → Setup → Setup
prepend d (ready ds live) = ready (d ∷ ds) live
prepend d (failed live) = failed live
prepend d null_data = null_data

-- `live` are the blocks that are allocated and not freed at the return.
pub data Outcome (Real : Type 0) : Type 0 where
  too_many_threads : Outcome Real
  no_memory : (live : List Block) → Outcome Real
  measured : (data' : List ThreadData) (bytes : ℕ) (bw : Real) (live : List Block) → Outcome Real
  faults : Outcome Real

module _ (env : Environment) (size_kb iterations threads : ℕ) (shared : Bool) where
  -- `elements`, after `elements = private_elements`.
  unfoldable pub elements : ℕ
  elements = if shared then u64 (size_kb * 1024) / 4 else u64 (env.ceil_quot size_kb threads * 256)

  unfoldable pub thread_data : (i : ℕ) → ThreadData
  thread_data i = record {
    iterations = if shared then iterations else u64 (iterations * threads);
    arr_length = elements;
    start = 0;
    array = if shared then 0 else i;
  }

  pub setup_loop : (left i : ℕ) → List Block → Setup
  setup_loop zero i live = ready [] live
  setup_loop (suc left) i live = elim (env.malloc 1) [
    | true ↦ elim (shared || env.memalign i) [
      | true ↦
          prepend (thread_data i)
            (setup_loop left (i + 1) (allocate (not shared) (thread_arr i) live))
      | false ↦ failed live
    ]
    | false ↦ null_data
  ]

  -- `iterations * sizeof(float) * elements * threads`
  pub counted_bytes : ℕ
  counted_bytes = u64 (u64 (u64 (iterations * 4) * elements) * threads)

  -- `bw`, with the last multiplication of the private mode.
  pub bandwidth : env.floats.Real
  bandwidth =
      let fl = env.floats in
      let gb = fl.div (fl.real (pos counted_bytes)) (fl.real (pos 1000000000)) in
      let bw = fl.narrow (
        fl.div (fl.mul (fl.real (pos 1000000000)) gb)
          (fl.real (pos (elapsed_ns fl env.before env.after)))) in
      if shared then bw else fl.narrow (fl.mul bw (fl.real (pos threads)))

  -- The calls of `free` at the end, in order.
  pub release : List Block → Option (List Block)
  release live = do
    live1 ← free_if (env.malloc 0) test_threads live
    live2 ← free_if shared test_arr live1
    live3 ← free_loop (if shared then 0 else threads) 0 live2
    free_if (env.malloc 1) thread_data_block live3

  pub outcome_of : List ThreadData → Option (List Block) → Outcome env.floats.Real
  outcome_of ds none = faults
  outcome_of ds (some live) = measured ds counted_bytes bandwidth live

  -- From the start of the threads on, which is written to `testThreads`.
  pub conclude : Setup → Outcome env.floats.Real
  conclude (ready ds live) =
      if env.malloc 0 || (threads == 0) then outcome_of ds (release live) else faults
  conclude (failed live) = no_memory live
  conclude null_data = faults

  pub measure_bw : Outcome env.floats.Real
  measure_bw =
      if not shared && ltb size_kb threads
      then too_many_threads
      else if shared && not (env.memalign 0)
      then no_memory []
      else (let live = allocate shared test_arr [] in
          conclude (
            setup_loop threads 0 (
              allocate (env.malloc 1) thread_data_block
                (allocate (env.malloc 0) test_threads live))))
