-- ===== src/CoherencyLatency/Main/Laws.antt =====
-- What main of CoherencyLatency/PThreadsCoherencyLatency.c prints, from the command line on.
use u_arch_test.Prelude.{
  ℕ, zero, suc, ◌+◌, ◌*◌, ◌≤◌, ◌<◌, ◌≡◌, refl, subst, ap, ◌∙◌, ◌==◌, if◌then◌else◌, Bool,
  Bool-cases, inl, inr, List, [], ◌∷◌, Option, none, some, All, get_elem?, get_elem?-set_self,
  get_elem?-set_ne, length, length-set, mul-le-mul, set, store, store_lem, arith, ◌>>=◌,
}
use u_arch_test.Prelude.Int.{pos}
use u_arch_test.Timing.{Floats, elapsed_ms}
use u_arch_test.CoherencyLatency.{time_threads}
use u_arch_test.CoherencyLatency.Handoff.{IsSmall}
use u_arch_test.CoherencyLatency.Rounds.{IsRound, join, rounds-finished}
use u_arch_test.CoherencyLatency.Main.{
  System, joined_target, run_test, latency_entry, test_columns, test_rows,
}
use native.Mathlib.Decide.{ℕ_discrete}

-- The system gives the memory and the threads, and in each test both threads have a turn in every
-- one of 2 * iter rounds or more.
pub record IsReady {Real : Type 0} (iter : ℕ) (e : System Real) : Type 0 where
  pub aligned : e.memalign ≡ 0
  pub block_size : length e.block ≡ 512
  pub table_size : (offset_idx : ℕ) → length (e.unset offset_idx) ≡ e.num_procs * e.num_procs
  pub created1 : (offset_idx i j : ℕ) → (e.events offset_idx i j).t1rc ≡ 0
  pub created2 : (offset_idx i j : ℕ) → (e.events offset_idx i j).t2rc ≡ 0
  pub rounds : (offset_idx i j : ℕ) → List (List Bool)
  pub fair : (offset_idx i j : ℕ) → All IsRound (rounds offset_idx i j)
  pub enough : (offset_idx i j : ℕ) → 2 * iter ≤ length (rounds offset_idx i j)
  pub played :
      (offset_idx i j : ℕ) → (e.events offset_idx i j).schedule ≡ join (rounds offset_idx i j)

-- What the output is meant to show.
module _ (fl : Floats) (e : System fl.Real) (iter : ℕ) where
  -- Nanoseconds for an iteration of the test of a pair.
  abbrev pub latency : (offset_idx i j : ℕ) → fl.Real
  latency offset_idx i j =
      let v = e.events offset_idx i j in
      fl.narrow (
        fl.div
          (fl.mul (fl.real (pos 1000000)) (fl.narrow (fl.real (pos (elapsed_ms v.start v.end)))))
          (fl.narrow (fl.real (pos iter))))

  -- An x on the diagonal, and elsewhere half of the latency.
  abbrev pub shown : (offset_idx i j : ℕ) → Option fl.Real
  shown offset_idx i j =
      if j == i then none else some (fl.narrow (fl.div (latency offset_idx i j) (fl.real (pos 2))))

  unfoldable pub line : (offset_idx i left j : ℕ) → List (Option fl.Real)
  line offset_idx i zero j = []
  line offset_idx i (suc left) j = shown offset_idx i j ∷ line offset_idx i left (j + 1)

  unfoldable pub lines : (offset_idx left i : ℕ) → List (List (Option fl.Real))
  lines offset_idx zero i = []
  lines offset_idx (suc left) i = line offset_idx i e.num_procs 0 ∷ lines offset_idx left (i + 1)

  unfoldable pub pages : (left offset_idx : ℕ) → List (ℕ × List (List (Option fl.Real)))
  pages zero offset_idx = []
  pages (suc left) offset_idx =
      (offset_idx, lines offset_idx e.num_procs 0) ∷ pages left (offset_idx + 1)

one_row : (i n : ℕ) → (i + 1) * n ≡ i * n + n
one_row i n = grind arith

module _ (fl : Floats) (e : System fl.Real) (iter : ℕ) (small : IsSmall iter)
    (ready : IsReady iter e) where
  joined_target_lem : (k i j : ℕ) → joined_target iter (e.events k i j) ≡ some (2 * iter)
  unfolding joined_target
  joined_target_lem k i j =
      let done =
        rounds-finished iter small (ready.rounds k i j) (ready.fair k i j) (ready.enough k i j) in
      rw (ready.created1 k i j, ready.created2 k i j, ready.played k i j, done.0, done.1) refl

  time_threads_lem :
      (k i j : ℕ)
      → time_threads fl iter
          (e.events k i j).t1rc
          (e.events k i j).t2rc
          (e.events k i j).start
          (e.events k i j).end
        ≡ latency fl e iter k i j
  unfolding time_threads
  time_threads_lem k i j = rw (ready.created1 k i j, ready.created2 k i j) refl

  -- The block after a test.
  abbrev played_on : ℕ → List ℕ → List ℕ
  played_on k block = set (set block (k * 8) 0) (k * 8) (2 * iter)

  run_test_lem :
      (k i j : ℕ) (block : List ℕ)
      → k * 8 < length block
      → run_test fl e iter k i j block ≡ some (latency fl e iter k i j, played_on k block)
  unfolding run_test
  run_test_lem k i j block within =
      rw
        (
          store_lem block (k * 8) 0 within,
          ◌>>=◌,
          joined_target_lem k i j,
          ◌>>=◌,
          time_threads_lem k i j,
        )
        refl

  abbrev pub result : (k i j : ℕ) → fl.Real
  result k i j = if i == j then fl.real (pos 0) else latency fl e iter k i j

  entry_lem :
      (k i j : ℕ) (block : List ℕ)
      → k * 8 < length block
      → (block' : List ℕ) × (length block' ≡ length block)
        × (latency_entry fl e iter k i j block ≡ some (result k i j, block'))
  unfolding latency_entry
  entry_lem k i j block within = elim (Bool-cases (i == j)) [
    | inl same ↦ (block, refl, rw same refl)
    | inr other ↦ (
      played_on k block,
      length-set (set block (k * 8) 0) (k * 8) (2 * iter) ∙ length-set block (k * 8) 0,
      rw other (run_test_lem k i j block within),
    )
  ]

  abbrev pub n : ℕ
  n = e.num_procs

  abbrev pub Out : Type 0
  Out = Option (List fl.Real × List ℕ)

  record FilledRow (k i left j : ℕ) (table : List fl.Real) (block : List ℕ) (r : Out) : Type 0 where
    out : List fl.Real
    block' : List ℕ
    returned : r ≡ some (out, block')
    size : length out ≡ length table
    block_kept : length block' ≡ length block
    fresh : (j' : ℕ) → j ≤ j' → j' < j + left → get_elem? out (j' + i * n) ≡ some (result k i j')
    before : (p : ℕ) → p < j + i * n → get_elem? out p ≡ get_elem? table p

  one_column :
      (k i left j : ℕ) (table table' : List fl.Real) (block block' : List ℕ) (v : fl.Real)
      → latency_entry fl e iter k i j block ≡ some (v, block')
      → store table (j + i * n) v ≡ some table'
      → test_columns fl e iter k i (suc left) j table block
        ≡ test_columns fl e iter k i left (j + 1) table' block'
  unfolding test_columns
  one_column k i left j table table' block block' v e0 e1 = rw (e0, ◌>>=◌, e1, ◌>>=◌) refl

  test_columns-FilledRow :
      (k i left j : ℕ) (table : List fl.Real) (block : List ℕ)
      → k * 8 < length block
      → j + left + i * n ≤ length table
      → FilledRow k i left j table block (test_columns fl e iter k i left j table block)
  unfolding test_columns
  test_columns-FilledRow k i zero j table block within room = record {
    out = table;
    block' = block;
    returned = refl;
    size = refl;
    block_kept = refl;
    fresh = λ j' low high. absurd (omega arith);
    before = λ p h. refl;
  }
  test_columns-FilledRow k i (suc left) j table block within room =
      let at = j + i * n in
      let v = result k i j in
      let table' = set table at v in
      let (block', kept, tested) = entry_lem k i j block within in
      let len = length-set table at v in
      let rest =
        test_columns-FilledRow k i left (j + 1) table' block' (omega arith) (omega (arith, len)) in
      record {
        out = rest.out;
        block' = rest.block';
        returned =
            one_column k i left j table table' block block' v tested
              (store_lem table at v (omega arith))
            ∙ rest.returned;
        size = rest.size ∙ len;
        block_kept = rest.block_kept ∙ kept;
        fresh = λ j' low high. elim (ℕ_discrete j j') [
          | yes here ↦
              subst (λ c. get_elem? rest.out (c + i * n) ≡ some (result k i c)) here
                (rest.before at (omega arith) ∙ get_elem?-set_self table at v (omega arith))
          | no there ↦ rest.fresh j' (omega arith) (omega arith)
        ];
        before = λ p h.
            rest.before p (omega arith)
            ∙ get_elem?-set_ne table at p v (λ same. absurd (omega arith));
      }

  pub record FilledRows (k left i : ℕ) (table : List fl.Real) (block : List ℕ) (r : Out)
      : Type 0 where
    pub out : List fl.Real
    pub block' : List ℕ
    pub returned : r ≡ some (out, block')
    pub block_kept : length block' ≡ length block
    pub fresh :
        (i' j : ℕ)
        → i ≤ i'
        → i' < i + left
        → j < n
        → get_elem? out (j + i' * n) ≡ some (result k i' j)
    pub before : (p : ℕ) → p < i * n → get_elem? out p ≡ get_elem? table p

  pub test_rows-FilledRows :
      (k left i : ℕ) (table : List fl.Real) (block : List ℕ)
      → k * 8 < length block
      → (i + left) * n ≤ length table
      → FilledRows k left i table block (test_rows fl e iter k left i table block)
  unfolding test_rows
  test_rows-FilledRows k zero i table block within room = record {
    out = table;
    block' = block;
    returned = refl;
    block_kept = refl;
    fresh = λ i' j low high lt. absurd (omega arith);
    before = λ p h. refl;
  }
  test_rows-FilledRows k (suc left) i table block within room =
      let upto = mul-le-mul (i + 1) (i + suc left) n (omega arith) in
      let row =
        test_columns-FilledRow k i n 0 table block within (omega (arith, one_row i n, upto)) in
      let all : (i + suc left) * n ≡ (i + 1 + left) * n = ap (λ m. m * n) (omega arith) in
      let rest =
        test_rows-FilledRows k left (i + 1) row.out row.block' (omega (arith, row.block_kept))
          (omega (arith, row.size, all)) in
      record {
        out = rest.out;
        block' = rest.block';
        returned = rw (row.returned, ◌>>=◌) rest.returned;
        block_kept = rest.block_kept ∙ row.block_kept;
        fresh = λ i' j low high lt. elim (ℕ_discrete i i') [
          | yes here ↦
              subst (λ c. get_elem? rest.out (j + c * n) ≡ some (result k c j)) here
                (rest.before (j + i * n) (omega (arith, one_row i n))
                  ∙ row.fresh j (omega arith) (omega arith))
          | no there ↦ rest.fresh i' j (omega arith) (omega arith) lt
        ];
        before = λ p h. rest.before p (omega (arith, one_row i n)) ∙ row.before p (omega arith);
      }
