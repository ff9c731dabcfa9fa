-- ===== src/MemoryLatency/Mlp/Laws.antt =====
-- RunMlpTest of MemoryLatency/MemoryLatency.c: where its chains go.
use u_arch_test.Prelude.{
  ℕ, zero, suc, ◌+◌, ◌*◌, ◌/◌, ◌^◌, ◌≤◌, ◌<◌, ◌≡◌, refl, sym, ap, ◌∙◌, List, [], ◌∷◌, Option, none,
  some, length, get_or, ltb, lt→ltb, Bool-cases, inl, inr, arith, ◌>>=◌,
}
use native.Mathlib.Decide.{ℕ_discrete}
use u_arch_test.MemoryLatency.Machine.{Machine, Calls, IsLawful}
use u_arch_test.MemoryLatency.Pattern.{fill_pattern_arr}
use u_arch_test.MemoryLatency.Pattern.Cycle.{stride}
use u_arch_test.MemoryLatency.Pattern.Shuffle.{hits}
use u_arch_test.MemoryLatency.Pattern.Fill.{IsSingleCycle, IsFilled, fill_pattern_arr-IsFilled}
use u_arch_test.MemoryLatency.Chase.Laps.{visit, visit-Link, visit_get}
use u_arch_test.MemoryLatency.Run.{cacheline_size, list_size_of}
use u_arch_test.MemoryLatency.Mlp.{
  start_offsets, advance, advance_loop, MlpReport, rounds_of, no_bandwidth, mlp_report, mlp_on,
  mlp_new, run_mlp_test,
}

-- An element that occurs in a list has a place in it.
place :
    (x r : ℕ) (l : List ℕ)
    → hits x r l ≡ 1
    → (i : ℕ) × (i < suc (length l)) × (get_or (r ∷ l) i 0 ≡ x)
place x r [] h = elim (ℕ_discrete x r) [
  | yes e ↦ (0, omega arith, sym e)
  | no other ↦ absurd (ground arith)
]
place x r (y ∷ l) h = elim (ℕ_discrete x r) [
  | yes e ↦ (0, omega arith, sym e)
  | no other ↦ let (i, below, e) = place x y l (ground arith) in (suc i, omega arith, e)
]

module _ (slot : ℕ → ℕ) (n : ℕ) (a : List ℕ) (single : IsSingleCycle slot n a) where
  -- Where chains that started at loads `ts` of the tour are after `k` rounds.
  abbrev pub after : (k : ℕ) → List ℕ → List ℕ
  after k [] = []
  after k (t ∷ ts) = slot (visit slot n a single (t + k)) ∷ after k ts

  advance-after : (k : ℕ) (ts : List ℕ) → advance a (after k ts) ≡ some (after (k + 1) ts)
  unfolding advance
  advance-after k [] = refl
  advance-after k (t ∷ ts) =
      rw (visit-Link slot n a single (t + k), ◌>>=◌, advance-after k ts)
        (ap (λ s. some (slot (visit slot n a single s) ∷ after (k + 1) ts)) (omega arith))

  pub advance_loop-after :
      (left k : ℕ) (ts : List ℕ) → advance_loop left a (after k ts) ≡ some (after (k + left) ts)
  unfolding advance_loop
  advance_loop-after zero k ts = ap (λ s. some (after s ts)) (omega arith)
  advance_loop-after (suc left) k ts =
      rw (advance-after k ts, ◌>>=◌)
        (advance_loop-after left (k + 1) ts ∙ ap (λ s. some (after s ts)) (omega arith))

  advance_loop-start :
      (left : ℕ) (ts : List ℕ) → advance_loop left a (after 0 ts) ≡ some (after left ts)
  advance_loop-start left ts =
      advance_loop-after left 0 ts ∙ ap (λ s. some (after s ts)) (omega arith)

  visit-place : (x : ℕ) → x < n → (t : ℕ) × (visit slot n a single t ≡ x)
  visit-place x h =
      let (i, below, e) = place x 0 single.order (single.once x h) in
      (i, visit_get slot n a single i (omega (arith, single.size)) ∙ e)

module _ (n : ℕ) (a : List ℕ) (single : IsSingleCycle (stride 16) n a) where
  start_offsets-after :
      (left i : ℕ)
      → i + left ≤ n
      → (ts : List ℕ) × (start_offsets left i ≡ after (stride 16) n a single 0 ts)
        × (length ts ≡ left)
  unfolding start_offsets
  start_offsets-after zero i h = ([], refl, refl)
  start_offsets-after (suc left) i h =
      let (t, here) = visit-place (stride 16) n a single i (omega arith) in
      let (ts, e, size) = start_offsets-after left (i + 1) (omega arith) in
      (t ∷ ts, starts t ts here e, omega (arith, size))
    where
      starts :
          (t : ℕ) (ts : List ℕ)
          → visit (stride 16) n a single t ≡ i
          → start_offsets left (i + 1) ≡ after (stride 16) n a single 0 ts
          → i * 16 ∷ start_offsets left (i + 1) ≡ after (stride 16) n a single 0 (t ∷ ts)
      starts t ts here e = rw e (
          ap (λ x. x * 16 ∷ after (stride 16) n a single 0 ts)
            (sym here ∙ ap (visit (stride 16) n a single) (omega arith)))

-- What is promised of the chains in an array: the array then holds one cycle of `n` elements, and
-- chain `i`, which starts at element `i`, ends `rounds` places further on the cycle.
pub record Chains (n rounds parallelism : ℕ) (Real : Type 0) (a : List ℕ)
    (r : Option (List ℕ × MlpReport Real)) : Type 0 where
  pub memory : List ℕ
  pub offsets : List ℕ
  pub report : MlpReport Real
  pub returns : r ≡ some (offsets, report)
  pub same_length : length memory ≡ length a
  pub single : IsSingleCycle (stride 16) n memory
  pub loads : List ℕ
  pub one_each : length loads ≡ parallelism
  pub starts : start_offsets parallelism 0 ≡ after (stride 16) n memory single 0 loads
  pub ends : offsets ≡ after (stride 16) n memory single rounds loads

module _ (m : Machine) (size_kb iterations parallelism : ℕ) (some_kb : 0 < size_kb)
    (small : size_kb < 2 ^ 22) (enough : parallelism ≤ size_kb * 16)
    (few : rounds_of m size_kb iterations parallelism < 2 ^ 31) where
  abbrev rounds : ℕ
  rounds = rounds_of m size_kb iterations parallelism

  abbrev n : ℕ
  n = list_size_of size_kb / 16

  -- The chases of RunMlpTest on an array with room for `size_kb` kilobytes, 1 to 2 ^ 22 - 1, with
  -- no more chains than cache lines and fewer than 2 ^ 31 rounds: they run without a fault over
  -- one cycle through all cache lines, chain `i` from line `i` on, and every chain ends as many
  -- places further on the cycle as there are rounds.
  pub mlp_on-Chains :
      (a : List ℕ) (calls : Calls)
      → list_size_of size_kb ≤ length a
      → Chains n rounds parallelism m.floats.Real a
          (mlp_on m size_kb iterations parallelism a calls)
  unfolding mlp_on
  mlp_on-Chains a calls room =
      let (ts, e, size) = started in
      record {
        memory = filled.out;
        offsets = after (stride 16) n filled.out filled.single rounds ts;
        report =
            mlp_report m size_kb iterations parallelism
              (after (stride 16) n filled.out filled.single rounds ts)
              (record calls { drawn = filled.drawn' });
        returns =
            rw
              (
                lt→ltb rounds (2 ^ 31) few,
                filled.returns,
                ◌>>=◌,
                e,
                advance_loop-start (stride 16) n filled.out filled.single rounds ts,
              )
              refl;
        same_length = filled.same_length;
        single = filled.single;
        loads = ts;
        one_each = size;
        starts = e;
        ends = refl;
      }
    where
      filled :
          IsFilled 16 n a
            (fill_pattern_arr m.rand a (list_size_of size_kb) cacheline_size calls.drawn)
      filled =
          fill_pattern_arr-IsFilled m.rand a (list_size_of size_kb) cacheline_size calls.drawn room
            (omega arith) (omega arith) (omega arith)

      started :
          (ts : List ℕ) × (start_offsets parallelism 0
            ≡ after (stride 16) n filled.out filled.single 0 ts)
          × (length ts ≡ parallelism)
      started = start_offsets-after n filled.out filled.single parallelism 0 (omega arith)

  mlp_new-returns :
      (array block : Option (List ℕ)) (calls : Calls)
      → ((a : List ℕ) → array ≡ some a → list_size_of size_kb ≤ length a)
      → (r : MlpReport m.floats.Real) × (mlp_new m size_kb iterations parallelism array block calls
          ≡ some r)
  unfolding mlp_new
  mlp_new-returns none block calls room =
      (no_bandwidth m size_kb iterations parallelism calls, refl)
  mlp_new-returns (some a) none calls room =
      (no_bandwidth m size_kb iterations parallelism calls, refl)
  mlp_new-returns (some a) (some b) calls room =
      let run = mlp_on-Chains a calls (room a refl) in (run.report, rw (run.returns, ◌>>=◌))

  -- RunMlpTest for such sizes, with a malloc that returns the size asked for or NULL, returns
  -- without a fault.
  pub run_mlp_test-returns :
      IsLawful m
      → (calls : Calls)
      → (r : MlpReport m.floats.Real) × (run_mlp_test m size_kb iterations parallelism calls
          ≡ some r)
  unfolding run_mlp_test
  run_mlp_test-returns lawful calls = elim (Bool-cases (ltb parallelism 1)) [
    | inl none_wanted ↦ (no_bandwidth m size_kb iterations parallelism calls, rw none_wanted)
    | inr wanted ↦
        let (r, runs) =
          mlp_new-returns (m.malloc calls.allocated (list_size_of size_kb))
            (m.malloc (calls.allocated + 1) parallelism)
            (record calls { allocated = calls.allocated + 2 })
            (λ a e. omega (arith, lawful.block calls.allocated (list_size_of size_kb) a e)) in
        (r, rw wanted runs)
  ]
