-- ===== src/MemoryBandwidth/Measure/Laws.antt =====
-- MeasureBw of MemoryBandwidth/MemoryBandwidth.c: the accounting of bytes and blocks.
use u_arch_test.Prelude.{
  ℕ, zero, suc, ◌+◌, ◌*◌, ◌%◌, ◌^◌, ◌≤◌, ◌<◌, ◌≡◌, refl, ap, mul-le-mul, ◌∙◌, if◌then◌else◌, Bool,
  true, false, not, ◌||◌, ltb, ==-ne, List, [], ◌∷◌, some, u64_small, arith, ◌>>=◌,
}
use u_arch_test.Prelude.Int.{pos}
use native.Mathlib.Decide.{ℕ_discrete}
use native.Mathlib.Numerals.{add-one}
use u_arch_test.Timing.{elapsed_ns}
use u_arch_test.MemoryBandwidth.Measure.{
  ThreadData, Environment, Block, test_arr, test_threads, thread_data_block, thread_arr, same_block,
  allocate, free, free_if, free_loop, ready, failed, prepend, no_memory, measured, elements,
  thread_data, setup_loop, counted_bytes, bandwidth, release, outcome_of, conclude, measure_bw,
}

-- Division of doubles rounds correctly, so the ceiling is that of the exact quotient where both
-- operands are below 2 ^ 26.
pub record IsCeil (env : Environment) : Type 0 where
  pub upper : (a b : ℕ) → a < 2 ^ 26 → 0 < b → b < 2 ^ 26 → a ≤ env.ceil_quot a b * b
  pub lower : (a b : ℕ) → a < 2 ^ 26 → 0 < b → b < 2 ^ 26 → env.ceil_quot a b * b < a + b

-- The bytes that a thread's function is told to move: each iteration goes over the whole array.
abbrev pub moved : List ThreadData → ℕ
moved [] = 0
moved (d ∷ ds) = d.iterations * d.arr_length * 4 + moved ds

-- The arrays of `n` threads from number `lo` on, the last one first, and then other blocks.
abbrev pub thread_arrs : (lo n : ℕ) → List Block → List Block
thread_arrs lo zero rest = rest
thread_arrs lo (suc n) rest = thread_arr (lo + n) ∷ thread_arrs lo n rest

free-skip :
    (x b : Block) (live rest : List Block)
    → same_block x b ≡ false
    → free x live ≡ some rest
    → free x (b ∷ live) ≡ some (b ∷ rest)
unfolding free
free-skip x b live rest other e = rw (free, other, e, ◌>>=◌) refl

free-thread_arr :
    (lo n : ℕ) (rest : List Block)
    → free (thread_arr lo) (thread_arrs lo (suc n) rest) ≡ some (thread_arrs (lo + 1) n rest)
unfolding free same_block
free-thread_arr lo zero rest = ground arith
free-thread_arr lo (suc n) rest =
    free-skip (thread_arr lo) (thread_arr (lo + suc n)) (thread_arrs lo (suc n) rest)
      (thread_arrs (lo + 1) n rest) (==-ne lo (lo + suc n) (λ e. absurd (omega arith)))
      (free-thread_arr lo n rest)
    ∙ ap (λ k. some (thread_arr k ∷ thread_arrs (lo + 1) n rest)) (omega arith)

free_loop_lem : (n i : ℕ) (rest : List Block) → free_loop n i (thread_arrs i n rest) ≡ some rest
unfolding free_loop
free_loop_lem zero i rest = refl
free_loop_lem (suc n) i rest = rw (free-thread_arr i n rest, ◌>>=◌) (free_loop_lem n (i + 1) rest)

-- `testThreads` is freed before the arrays of the threads.
free-test_threads :
    (n : ℕ) (rest rest' : List Block)
    → free test_threads rest ≡ some rest'
    → free test_threads (thread_arrs 0 n rest) ≡ some (thread_arrs 0 n rest')
unfolding free same_block
free-test_threads zero rest rest' e = e
free-test_threads (suc n) rest rest' e = rw (free-test_threads n rest rest' e, ◌>>=◌) refl

-- Both calls of malloc give memory.
pub record HasMemory (env : Environment) : Type 0 where
  pub threads_had : env.malloc 0 ≡ true
  pub data_had : env.malloc 1 ≡ true

-- The blocks at the head of the loop over the threads, and at its end.
abbrev pub live_at : (shared : Bool) (n : ℕ) → List Block
live_at true n = thread_data_block ∷ test_threads ∷ test_arr ∷ []
live_at false n = thread_arrs 0 n (thread_data_block ∷ test_threads ∷ [])

ltb_ge : (a b : ℕ) → b ≤ a → ltb a b ≡ false
ltb_ge a b h = ground arith

-- Where the loop over the threads is reached.
measure_bw_started :
    (env : Environment) (size_kb iterations threads : ℕ) (shared : Bool)
    → (shared ≡ true → env.memalign 0 ≡ true)
    → HasMemory env
    → (shared ≡ false → threads ≤ size_kb)
    → measure_bw env size_kb iterations threads shared
      ≡ conclude env size_kb iterations threads shared
          (setup_loop env size_kb iterations threads shared threads 0 (live_at shared 0))
unfolding measure_bw
measure_bw_started env size_kb iterations threads true ok had enough =
    rw (measure_bw, ok refl, had.data_had, had.threads_had) refl
measure_bw_started env size_kb iterations threads false ok had enough =
    rw (measure_bw, had.data_had, had.threads_had, ltb_ge size_kb threads (enough refl)) refl

or_true : (b : Bool) → (b || true) ≡ true
or_true true = refl
or_true false = refl

one_more :
    (shared : Bool) (i : ℕ)
    → allocate (not shared) (thread_arr i) (live_at shared i) ≡ live_at shared (i + 1)
one_more true i = refl
one_more false i = rw add-one (ap (λ k. thread_arr k ∷ live_at false i) (omega arith))

module _ (env : Environment) (size_kb iterations threads : ℕ) (shared : Bool) where
  abbrev pub data_from : (left i : ℕ) → List ThreadData
  data_from zero i = []
  data_from (suc left) i =
      thread_data env size_kb iterations threads shared i ∷ data_from left (i + 1)

  setup_loop_step :
      (left i : ℕ) (live : List Block)
      → env.malloc 1 ≡ true
      → env.memalign i ≡ true
      → setup_loop env size_kb iterations threads shared (suc left) i live
        ≡ prepend (thread_data env size_kb iterations threads shared i) (
            setup_loop env size_kb iterations threads shared left
              (i + 1)
              (allocate (not shared) (thread_arr i) live))
  unfolding setup_loop
  setup_loop_step left i live had ok = rw (setup_loop, had, ok, or_true shared) refl

  setup_loop-ready :
      (left i : ℕ)
      → ((k : ℕ) → env.memalign k ≡ true)
      → HasMemory env
      → setup_loop env size_kb iterations threads shared left i (live_at shared i)
        ≡ ready (data_from left i) (live_at shared (left + i))
  unfolding setup_loop prepend
  setup_loop-ready zero i ok had = ap (λ n. ready [] (live_at shared n)) (omega arith)
  setup_loop-ready (suc left) i ok had =
      setup_loop_step left i (live_at shared i) had.data_had (ok i)
      ∙ rw (one_more shared i, setup_loop-ready left (i + 1) ok had)
          (ap
            (λ n.
              ready (thread_data env size_kb iterations threads shared i ∷ data_from left (i + 1))
                (live_at shared n))
            (omega arith))

  -- No intermediate product of the function wraps.
  pub record IsSmall : Type 0 where
    pub scaled : iterations * threads < 2 ^ 64
    pub first : iterations * 4 < 2 ^ 64
    pub second : iterations * 4 * elements env size_kb iterations threads shared < 2 ^ 64
    pub third : iterations * 4 * elements env size_kb iterations threads shared * threads < 2 ^ 64

  release_lem :
      HasMemory env
      → release env size_kb iterations threads shared (live_at shared threads) ≡ some []
  unfolding release free same_block free_loop
  release_lem had = rw (release, had.threads_had, had.data_had) (freed shared)
    where
      freed :
          (sh : Bool)
          → (free_if true test_threads (live_at sh threads) >>= λ live1.
              free_if sh test_arr live1 >>= λ live2.
              free_loop (if sh then 0 else threads) 0 live2 >>= λ live3.
              free_if true thread_data_block live3)
            ≡ some []
      freed true = refl
      freed false =
          rw
            (
              free-test_threads threads (thread_data_block ∷ test_threads ∷ [])
                  (thread_data_block ∷ []) refl,
              ◌>>=◌,
              free_loop_lem threads 0 (thread_data_block ∷ []),
              ◌>>=◌,
            )
            refl

  pub measure_bw_ready :
      ((k : ℕ) → env.memalign k ≡ true)
      → HasMemory env
      → (shared ≡ false → threads ≤ size_kb)
      → measure_bw env size_kb iterations threads shared
        ≡ measured
            (data_from threads 0)
            (counted_bytes env size_kb iterations threads shared)
            (bandwidth env size_kb iterations threads shared)
            []
  unfolding measure_bw conclude outcome_of
  measure_bw_ready ok had enough =
      let all : threads + 0 ≡ threads = omega arith in
      measure_bw_started env size_kb iterations threads shared (λ e. ok 0) had enough
      ∙ ap (conclude env size_kb iterations threads shared) (
          setup_loop-ready threads 0 ok had
          ∙ ap (λ n. ready (data_from threads 0) (live_at shared n)) all)
      ∙ rw (conclude, had.threads_had, release_lem had, outcome_of) refl

  -- The result in GB/s on float for a number of bytes, in both modes: in private mode the threads make
  -- as many times more rounds as there are threads.
  abbrev pub rate : (bytes : ℕ) → env.floats.Real
  rate bytes =
      let fl = env.floats in
      let gb = fl.div (fl.real (pos bytes)) (fl.real (pos 1000000000)) in
      fl.narrow (
        fl.div (fl.mul (fl.real (pos 1000000000)) gb)
          (fl.real (pos (elapsed_ns fl env.before env.after))))

-- Private mode, where array `k` is the first that cannot be had.
module _ (env : Environment) (size_kb iterations threads k : ℕ) (below : k < threads)
    (enough : threads ≤ size_kb) (had : HasMemory env)
    (ok : (j : ℕ) → j < k → env.memalign j ≡ true) (fails : env.memalign k ≡ false) where
  setup_loop-failed :
      (left i : ℕ)
      → i + left ≡ threads
      → i ≤ k
      → setup_loop env size_kb iterations threads false left i (live_at false i)
        ≡ failed (live_at false k)
  unfolding setup_loop prepend
  setup_loop-failed zero i e le = absurd (omega arith)
  setup_loop-failed (suc left) i e le = elim (ℕ_discrete i k) [
    | no before ↦
        setup_loop_step env size_kb iterations threads false left i (live_at false i) had.data_had
          (ok i (omega arith))
        ∙ rw (one_more false i, setup_loop-failed left (i + 1) (omega arith) (omega arith)) refl
    | yes here ↦
        rw (setup_loop, had.data_had, ap env.memalign here ∙ fails)
          (ap (λ n. failed (live_at false n)) here)
  ]

  -- In private mode, with no more threads than kilobytes, the first posix_memalign that fails, at
  -- thread k, makes MeasureBw return 0 and leave all blocks that it has by then: the arrays of the
  -- k threads before, and the two of malloc.
  pub measure_bw_leak :
      measure_bw env size_kb iterations threads false
      ≡ no_memory (thread_arrs 0 k (thread_data_block ∷ test_threads ∷ []))
  unfolding measure_bw conclude
  measure_bw_leak =
      measure_bw_started env size_kb iterations threads false (λ e. absurd (cc)) had (λ e. enough)
      ∙ ap (conclude env size_kb iterations threads false)
          (setup_loop-failed threads 0 (omega arith) (omega arith))

ceil_small : (q b n : ℕ) → 0 < b → q * b < n → q < n
ceil_small q b n h lt = omega (arith, mul-le-mul 1 b q h)

-- In private mode, for 1 to 2 ^ 26 - 1 threads and fewer than 2 ^ 26 kilobytes, where the ceiling
-- of a quotient of doubles is exact there: the length of each thread's array in bytes is a
-- multiple of 512, which the unrolled loops need, and the arrays together cover the test size, by
-- less than a kilobyte per thread more than it.
pub elements_private :
    (env : Environment) (size_kb iterations threads : ℕ)
    → IsCeil env
    → size_kb < 2 ^ 26
    → 0 < threads
    → threads < 2 ^ 26
    → let bytes = elements env size_kb iterations threads false * 4 in
      (bytes % 512 ≡ 0)
      × (size_kb * 1024 ≤ bytes * threads)
      × (bytes * threads < size_kb * 1024 + threads * 1024)
unfolding elements
elements_private env size_kb iterations threads ceil small some_threads few =
    let q = env.ceil_quot size_kb threads in
    let over = ceil.lower size_kb threads small some_threads few in
    let under = ceil.upper size_kb threads small some_threads few in
    rw
      (u64_small (q * 256)
        (omega (arith, ceil_small q threads (2 ^ 27) some_threads (omega (arith, over)))))
      (omega arith, omega (arith, under), omega (arith, over))
