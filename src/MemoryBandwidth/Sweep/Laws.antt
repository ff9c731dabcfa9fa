-- ===== src/MemoryBandwidth/Sweep/Laws.antt =====
-- The table of -autothreads in MemoryBandwidth/MemoryBandwidth.c, entry by entry.
use u_arch_test.Prelude.{
  ℕ, zero, suc, ◌+◌, ◌-◌, ◌*◌, ◌/◌, ◌^◌, ◌≤◌, ◌<◌, ◌≡◌, ◌≢◌, refl, sym, ap, ◌∙◌, ltb, leb, ◌==◌,
  if◌then◌else◌, Bool, true, ◌&&◌, List, [], ◌∷◌, Option, some, get_elem?, get_elem?-set_self,
  get_elem?-set_ne, length, length-set, int_value_lem, next_int_lem, lt_of_get_elem?, set,
  store_lem, u64, checked_div_lem, Bool-cases, inl, inr, arith, ◌>>=◌,
}
use u_arch_test.Prelude.Int.{pos}
use u_arch_test.MemoryBandwidth.Iterations.{raise_gb, round_count, get_iteration_count}
use u_arch_test.MemoryBandwidth.Sweep.{
  bandwidth_test_sizes, measure_into, row_of_sizes, all_threads, by_size_and_threads,
  autothreads_run, table_entry,
}
use native.Mathlib.Decide.{ℕ_discrete}
use mathlib.Core.Option.{some-injective, none-ne-some}

-- The sizes are at least `low` and in order.
abbrev pub ascending : (low : ℕ) → List ℕ → Bool
ascending low [] = true
ascending low (size ∷ more) = leb low size && ascending size more

ascending_head : (low size : ℕ) (more : List ℕ) → ascending low (size ∷ more) ≡ true → low ≤ size
ascending_head low size more h = ground arith

ascending_tail :
    (low size : ℕ) (more : List ℕ) → ascending low (size ∷ more) ≡ true → ascending size more ≡ true
ascending_tail low size more h = ground arith

ascending_le :
    (low : ℕ) (sizes : List ℕ) (j size : ℕ)
    → ascending low sizes ≡ true
    → get_elem? sizes j ≡ some size
    → low ≤ size
ascending_le low [] j size h e = absurd (none-ne-some size e)
ascending_le low (s ∷ more) zero size h e =
    omega (arith, ascending_head low s more h, some-injective s size e)
ascending_le low (s ∷ more) (suc j) size h e =
    omega (
      arith,
      ascending_head low s more h,
      ascending_le s more j size (ascending_tail low s more h) e,
    )

-- The global where an index of the sizes is reached, and at their end.
gb_at : (gb : ℕ) → List ℕ → ℕ → ℕ
gb_at gb [] j = gb
gb_at gb (size ∷ more) zero = gb
gb_at gb (size ∷ more) (suc j) = gb_at (raise_gb size gb) more j

gb_end : (gb : ℕ) → List ℕ → ℕ
gb_end gb [] = gb
gb_end gb (size ∷ more) = gb_end (raise_gb size gb) more

-- The iteration count for an amount of data.
count : (size gb : ℕ) → ℕ
count size gb = round_count (u64 (raise_gb size gb * 1024 * 1024) / size)

counted :
    (size threads gb : ℕ)
    → 0 < size
    → get_iteration_count size threads gb ≡ some (count size gb, raise_gb size gb)
unfolding get_iteration_count count
counted size threads gb some_size =
    rw (checked_div_lem (u64 (raise_gb size gb * 1024 * 1024)) size some_size, ◌>>=◌) refl

-- Up to 64 KB nothing has changed the global yet.
gb_at_small :
    (low gb : ℕ) (sizes : List ℕ) (j size : ℕ)
    → ascending low sizes ≡ true
    → get_elem? sizes j ≡ some size
    → size ≤ 64
    → gb_at gb sizes j ≡ gb
unfolding gb_at raise_gb
gb_at_small low gb [] j size h e small = refl
gb_at_small low gb (s ∷ more) zero size h e small = refl
gb_at_small low gb (s ∷ more) (suc j) size h e small =
    let rest = gb_at_small s gb more j size (ascending_tail low s more h) e small in
    let le = ascending_le s more j size (ascending_tail low s more h) e in
    ap (λ g. gb_at g more j) (ground arith) ∙ rest

-- Once it is 64 it stays so.
gb_at_64 : (sizes : List ℕ) (j : ℕ) → gb_at 64 sizes j ≡ 64
unfolding gb_at raise_gb
gb_at_64 [] j = refl
gb_at_64 (s ∷ more) zero = refl
gb_at_64 (s ∷ more) (suc j) = ap (λ g. gb_at g more j) (ground arith) ∙ gb_at_64 more j

count_large : (size gb : ℕ) → 64 < size → count size gb ≡ count size 64
unfolding count raise_gb
count_large size gb large = ap (λ g. round_count (u64 (g * 1024 * 1024) / size)) (ground arith)

gb_end_64 : (gb : ℕ) → gb_end gb bandwidth_test_sizes ≡ 64
unfolding gb_end raise_gb
gb_end_64 gb = refl

-- The amount of data that a measurement of -autothreads moves: the one asked for only with one
-- thread and up to 64 KB.
abbrev pub amount : (gb size thread_idx : ℕ) → ℕ
amount gb size thread_idx = if (thread_idx == 1) && leb size 64 then gb else 64

first_count :
    (gb j size : ℕ)
    → get_elem? bandwidth_test_sizes j ≡ some size
    → count size (gb_at gb bandwidth_test_sizes j) ≡ count size (amount gb size 1)
first_count gb j size e = elim (Bool-cases (ltb 64 size)) [
  | inl large ↦
      count_large size (gb_at gb bandwidth_test_sizes j) (ground (arith, large))
      ∙ sym (count_large size (amount gb size 1) (ground (arith, large)))
  | inr small ↦
      ap (count size) (gb_at_small 1 gb bandwidth_test_sizes j size refl e (ground (arith, small)))
      ∙ ap (count size) (ground (arith, small))
]

later_count :
    (gb size thread_idx : ℕ)
    → 1 ≢ thread_idx
    → count size 64 ≡ count size (amount gb size thread_idx)
later_count gb size thread_idx later = ap (count size) (ground arith)

size_positive : (j size : ℕ) → get_elem? bandwidth_test_sizes j ≡ some size → 0 < size
size_positive j size e = ascending_le 1 bandwidth_test_sizes j size refl e

module _ {Real : Type 0} (malloc : (slots : ℕ) → Option (List Real)) (measured : ℕ → ℕ → ℕ → Real)
    (instructions : ℕ → ℕ → Real) where
  abbrev entry : List Real → (base j : ℕ) → Option Real
  entry results base j = get_elem? results (base * 39 + j)

  -- The sizes from index i on are measured with some number of threads, and no earlier entry
  -- changes.
  record Measured (thread_idx i : ℕ) (sizes : List ℕ) (results : List Real) (gb : ℕ)
      (r : Option (List Real × ℕ)) : Type 0 where
    out : List Real
    returns : r ≡ some (out, gb_end gb sizes)
    same : length out ≡ length results
    fresh :
        (j size : ℕ)
        → get_elem? sizes j ≡ some size
        → entry out (thread_idx - 1) (i + j)
          ≡ some (measured size (count size (gb_at gb sizes j)) thread_idx)
    before : (k : ℕ) → k < (thread_idx - 1) * 39 + i → get_elem? out k ≡ get_elem? results k

  row_of_sizes-Measured :
      (low thread_idx i : ℕ) (sizes : List ℕ) (results : List Real) (gb : ℕ)
      → 0 < low
      → ascending low sizes ≡ true
      → (thread_idx - 1) * 39 + i + length sizes ≤ length results
      → length results < 2 ^ 31
      → Measured thread_idx i sizes results gb
          (row_of_sizes malloc measured instructions thread_idx i sizes (results, gb))
  unfolding row_of_sizes measure_into gb_at gb_end
  row_of_sizes-Measured low thread_idx i [] results gb some_low asc room few = record {
    out = results;
    returns = refl;
    same = refl;
    fresh = λ j size e. absurd (none-ne-some size e);
    before = λ k h. refl;
  }
  row_of_sizes-Measured low thread_idx i (size ∷ more) results gb some_low asc room few =
      let at = (thread_idx - 1) * 39 + i in
      let v = measured size (count size gb) thread_idx in
      let some_size : 0 < size = omega (arith, ascending_head low size more asc) in
      let rest =
        row_of_sizes-Measured size thread_idx (i + 1) more (set results at v) (raise_gb size gb)
          some_size (ascending_tail low size more asc) (omega (arith, length-set results at v))
          (omega (arith, length-set results at v)) in
      record {
        out = rest.out;
        returns =
            rw
              (
                int_value_lem at (omega arith),
                ◌>>=◌,
                counted size thread_idx gb some_size,
                ◌>>=◌,
                store_lem results at v (omega arith),
                ◌>>=◌,
              )
              rest.returns;
        same = rest.same ∙ length-set results at v;
        fresh = entries rest;
        before = λ k h.
            rest.before k (omega arith)
            ∙ get_elem?-set_ne results at k v (λ e. absurd (omega arith));
      }
    where
      entries :
          (rest : Measured thread_idx
            (i + 1)
            more
            (set results ((thread_idx - 1) * 39 + i) (measured size (count size gb) thread_idx))
            (raise_gb size gb)
            (row_of_sizes malloc measured instructions thread_idx (i + 1) more (
              set results ((thread_idx - 1) * 39 + i) (measured size (count size gb) thread_idx),
              raise_gb size gb,
            )))
          → (j size' : ℕ) → get_elem? (size ∷ more) j ≡ some size'
          → entry rest.out (thread_idx - 1) (i + j)
            ≡ some (measured size' (count size' (gb_at gb (size ∷ more) j)) thread_idx)
      entries rest zero size' e =
          let at = (thread_idx - 1) * 39 + i in
          let v = measured size (count size gb) thread_idx in
          ap (get_elem? rest.out) (omega arith)
          ∙ rest.before at (omega arith)
          ∙ get_elem?-set_self results at v (omega arith)
          ∙ ap (λ s. some (measured s (count s gb) thread_idx)) (some-injective size size' e)
      entries rest (suc j) size' e =
          ap (entry rest.out (thread_idx - 1)) (omega arith) ∙ rest.fresh j size' e

  -- The rows from a number of threads on, all with the global at 64.
  record Tabled (left from : ℕ) (results : List Real) (r : Option (List Real × ℕ)) : Type 0 where
    out : List Real
    returns : r ≡ some (out, 64)
    fresh :
        (thread_idx j size : ℕ)
        → from ≤ thread_idx
        → thread_idx < from + left
        → get_elem? bandwidth_test_sizes j ≡ some size
        → entry out (thread_idx - 1) j ≡ some (measured size (count size 64) thread_idx)
    before : (k : ℕ) → k < (from - 1) * 39 → get_elem? out k ≡ get_elem? results k

  index_lt : (j size : ℕ) → get_elem? bandwidth_test_sizes j ≡ some size → j < 39
  index_lt j size e = lt_of_get_elem? bandwidth_test_sizes j e

  all_threads-Tabled :
      (left from : ℕ) (results : List Real)
      → 0 < from
      → (from - 1 + left) * 39 ≤ length results
      → length results < 2 ^ 31
      → Tabled left from results (all_threads malloc measured instructions left from (results, 64))
  unfolding all_threads
  all_threads-Tabled zero from results some_from room few = record {
    out = results;
    returns = refl;
    fresh = λ t j size a b e. absurd (omega arith);
    before = λ k h. refl;
  }
  all_threads-Tabled (suc left) from results some_from room few =
      let row =
        row_of_sizes-Measured 1 from 0 bandwidth_test_sizes results 64 (omega arith) refl
          (omega arith) few in
      let rest =
        all_threads-Tabled left (from + 1) row.out (omega arith) (omega (arith, row.same))
          (omega (arith, row.same)) in
      record {
        out = rest.out;
        returns =
            rw (row.returns, ◌>>=◌, gb_end_64 64, next_int_lem from (omega arith), ◌>>=◌)
              rest.returns;
        fresh = λ t j size a b e. elim (ℕ_discrete from t) [
          | yes here ↦
              rest.before ((t - 1) * 39 + j) (omega (arith, index_lt j size e))
              ∙ ap (λ u. entry row.out (u - 1) j) (sym here)
              ∙ ap (entry row.out (from - 1)) (omega arith)
              ∙ row.fresh j size e
              ∙ ap (λ g. some (measured size (count size g) from)) (gb_at_64 bandwidth_test_sizes j)
              ∙ ap (λ u. some (measured size (count size 64) u)) here
          | no later ↦ rest.fresh t j size (omega arith) (omega arith) e
        ];
        before = λ k h. rest.before k (omega arith) ∙ row.before k (omega arith);
      }

  shown :
      (results : List Real) (thread_idx j : ℕ) (v : Real)
      → (thread_idx - 1) * 39 + j < 2 ^ 31
      → entry results (thread_idx - 1) j ≡ some v
      → table_entry malloc measured instructions results j thread_idx ≡ some v
  unfolding table_entry
  shown results thread_idx j v few e = rw (int_value_lem ((thread_idx - 1) * 39 + j) few, ◌>>=◌) e

  -- Malloc gives the table.
  abbrev pub Gives : (slots : ℕ) → Type 0
  Gives slots = (block : List Real) × (malloc slots ≡ some block) × (length block ≡ slots)

  -- The table of -autothreads, without -sizekb: with at least one thread and a table whose indices are
  -- ints, which malloc gives, and any amount of data asked for, no division and no store fails, and the table shows for each size and each number of
  -- threads what MeasureBw gives for just those, with the iteration count that GetIterationCount
  -- computes for 64 GB, and for the amount asked for only with one thread and up to 64 KB.
  pub autothreads_run_lem :
      (autothreads gb : ℕ)
      → 0 < autothreads
      → autothreads * 39 < 2 ^ 31
      → Gives (autothreads * 39)
      → (results : List Real) × (autothreads_run malloc measured instructions (pos 0) autothreads gb
          ≡ some (by_size_and_threads results))
        × ((thread_idx j size : ℕ)
            → 0 < thread_idx
            → thread_idx ≤ autothreads
            → get_elem? bandwidth_test_sizes j ≡ some size
            → (iterations : ℕ) × (left : ℕ) × (get_iteration_count size thread_idx
                  (amount gb size thread_idx)
                ≡ some (iterations, left))
              × (table_entry malloc measured instructions results j thread_idx
                  ≡ some (measured size iterations thread_idx)))
  unfolding autothreads_run all_threads
  autothreads_run_lem zero gb some_threads few gives = absurd (omega arith)
  autothreads_run_lem (suc more) gb some_threads few gives =
      let (first, got, room) = gives in
      let row =
        row_of_sizes-Measured 1 1 0 bandwidth_test_sizes first gb (omega arith) refl
          (omega (arith, room)) (omega (arith, room)) in
      let rest =
        all_threads-Tabled more 2 row.out (omega arith) (omega (arith, row.same, room))
          (omega (arith, row.same, room)) in
      (
        rest.out,
        rw
            (
              got,
              row.returns,
              ◌>>=◌,
              gb_end_64 gb,
              next_int_lem 1 (omega arith),
              ◌>>=◌,
              rest.returns,
              ◌>>=◌,
            )
            refl,
        λ t j size a b e.
            let left = amount gb size t in
            (
              count size left,
              raise_gb size left,
              counted size t left (size_positive j size e),
              shown rest.out t j (measured size (count size left) t)
                  (omega (arith, index_lt j size e))
                  (elim (ℕ_discrete 1 t) [
                    | yes one ↦
                        rest.before ((t - 1) * 39 + j) (omega (arith, index_lt j size e))
                        ∙ ap (λ u. entry row.out (u - 1) j) (sym one)
                        ∙ ap (entry row.out 0) (omega arith)
                        ∙ row.fresh j size e
                        ∙ ap (λ c. some (measured size c 1)) (first_count gb j size e)
                        ∙ ap (λ u. some (measured size (count size (amount gb size u)) u)) one
                    | no later ↦
                        rest.fresh t j size (omega arith) (omega arith) e
                        ∙ ap (λ c. some (measured size c t)) (later_count gb size t later)
                  ]),
            ),
      )
