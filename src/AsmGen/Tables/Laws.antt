-- ===== src/AsmGen/Tables/Laws.antt =====
-- The tables that the programs of AsmGen fill and print, from the tests to the output.
use u_arch_test.Prelude.{
  ℕ, zero, suc, ◌+◌, ◌*◌, ◌^◌, ◌≤◌, ◌<◌, ◌≡◌, refl, subst, ap, ◌∙◌, List, [], ◌∷◌, Option, some,
  get_elem?, get_elem?-set_self, get_elem?-set_ne, length, length-set, mul-le-mul, set, store, u64,
  u64_small, ◌/◌, store_lem, u32, arith, ◌>>=◌,
}
use u_arch_test.AsmGen.Tables.{
  sizes_row, branch_rows, result_slots, test_block, print_row, print_rows,
}
use native.Mathlib.Decide.{ℕ_discrete}

one_row : (b x : ℕ) → (b + 1) * x ≡ b * x + x
one_row b x = grind arith

-- What a table is meant to show: a header and the results of its tests for each branch count.
pub values : {Real : Type 0} → (test : ℕ → ℕ → Real) (left t b : ℕ) → List Real
values test zero t b = []
values test (suc left) t b = test b t ∷ values test left (t + 1) b

pub rows :
    {Real : Type 0}
    → (test : ℕ → ℕ → Real) (x_len : ℕ) (y_counts : List ℕ) (b : ℕ) → List (ℕ × List Real)
rows test x_len [] b = []
rows test x_len (y ∷ ys) b = (y, values test x_len 0 b) ∷ rows test x_len ys (b + 1)

module _ {Real : Type 0} (malloc : (k slots : ℕ) → Option (List Real)) (first second : ℕ → ℕ → Real)
    (x_len : ℕ) where
  abbrev Tables : Type 0
  Tables = List Real × List Real

  -- Both tables have room for some slots, whose indices do not wrap.
  abbrev HasRoom : ℕ → Tables → Type 0
  HasRoom slots (us, vs) = (slots ≤ length us) × (slots ≤ length vs) × (slots < 2 ^ 32)

  -- The slot of a test holds its results.
  abbrev Holds : Tables → (b t : ℕ) → Type 0
  Holds (us, vs) b t =
      (get_elem? us (b * x_len + t) ≡ some (first b t))
      × (get_elem? vs (b * x_len + t) ≡ some (second b t))

  abbrev Same : (k : ℕ) → Tables → Tables → Type 0
  Same k (us, vs) (ws, zs) = (get_elem? us k ≡ get_elem? ws k) × (get_elem? vs k ≡ get_elem? zs k)

  record FilledRow (left t b : ℕ) (tables : Tables) (r : Option Tables) : Type 0 where
    out : Tables
    returns : r ≡ some out
    room : (n : ℕ) → HasRoom n tables → HasRoom n out
    fresh : (t' : ℕ) → t ≤ t' → t' < t + left → Holds out b t'
    before : (k : ℕ) → k < b * x_len + t → Same k out tables

  one_size :
      (left t b : ℕ) (us vs us' vs' : List Real)
      → store us (u32 (b * x_len + t)) (first b t) ≡ some us'
      → store vs (u32 (b * x_len + t)) (second b t) ≡ some vs'
      → sizes_row malloc first second x_len (suc left) t b (us, vs)
        ≡ sizes_row malloc first second x_len left (t + 1) b (us', vs')
  unfolding sizes_row
  one_size left t b us vs us' vs' e0 e1 = rw (e0, ◌>>=◌, e1, ◌>>=◌) refl

  sizes_row-FilledRow :
      (left t b : ℕ) (tables : Tables)
      → HasRoom (b * x_len + t + left) tables
      → FilledRow left t b tables (sizes_row malloc first second x_len left t b tables)
  unfolding sizes_row
  sizes_row-FilledRow zero t b tables room = record {
    out = tables;
    returns = refl;
    room = λ n h. h;
    fresh = λ t' low high. absurd (omega arith);
    before = λ k h. (refl, refl);
  }
  sizes_row-FilledRow (suc left) t b (us, vs) (room0, room1, small) =
      let at = b * x_len + t in
      let us' = set us at (first b t) in
      let vs' = set vs at (second b t) in
      let len0 = length-set us at (first b t) in
      let len1 = length-set vs at (second b t) in
      let index : u32 (b * x_len + t) ≡ at = omega arith in
      let rest =
        sizes_row-FilledRow left (t + 1) b (us', vs')
          (omega (arith, len0), omega (arith, len1), omega arith) in
      record {
        out = rest.out;
        returns =
            one_size left t b us vs us' vs'
              (ap (λ i. store us i (first b t)) index ∙ store_lem us at (first b t) (omega arith))
              (ap (λ i. store vs i (second b t)) index ∙ store_lem vs at (second b t) (omega arith))
            ∙ rest.returns;
        room = λ n h. rest.room n (omega (arith, len0, h.0), omega (arith, len1, h.1), h.2);
        fresh = λ t' low high. elim (ℕ_discrete t t') [
          | yes here ↦
              let kept = rest.before at (omega arith) in
              subst (Holds rest.out b) here (
                kept.0 ∙ get_elem?-set_self us at (first b t) (omega arith),
                kept.1 ∙ get_elem?-set_self vs at (second b t) (omega arith),
              )
          | no there ↦ rest.fresh t' (omega arith) (omega arith)
        ];
        before = λ k h.
            let kept = rest.before k (omega arith) in
            (
              kept.0 ∙ get_elem?-set_ne us at k (first b t) (λ e. absurd (omega arith)),
              kept.1 ∙ get_elem?-set_ne vs at k (second b t) (λ e. absurd (omega arith)),
            );
      }

  record FilledRows (left b : ℕ) (tables : Tables) (r : Option Tables) : Type 0 where
    out : Tables
    returns : r ≡ some out
    fresh : (b' t : ℕ) → b ≤ b' → b' < b + left → t < x_len → Holds out b' t
    before : (k : ℕ) → k < b * x_len → Same k out tables

  branch_rows-FilledRows :
      (left b : ℕ) (tables : Tables)
      → HasRoom ((b + left) * x_len) tables
      → FilledRows left b tables (branch_rows malloc first second x_len left b tables)
  unfolding branch_rows
  branch_rows-FilledRows zero b tables room = record {
    out = tables;
    returns = refl;
    fresh = λ b' t low high lt. absurd (omega arith);
    before = λ k h. (refl, refl);
  }
  branch_rows-FilledRows (suc left) b (us, vs) (room0, room1, small) =
      let all : (b + suc left) * x_len ≡ (b + 1 + left) * x_len =
        ap (λ n. n * x_len) (omega arith) in
      let upto = mul-le-mul (b + 1) (b + suc left) x_len (omega arith) in
      let row =
        sizes_row-FilledRow x_len 0 b (us, vs)
          (
            omega (arith, one_row b x_len),
            omega (arith, one_row b x_len),
            omega (arith, one_row b x_len),
          ) in
      let rest =
        branch_rows-FilledRows left (b + 1) row.out
          (row.room ((b + 1 + left) * x_len) (omega arith, omega arith, omega arith)) in
      record {
        out = rest.out;
        returns = rw (row.returns, ◌>>=◌) rest.returns;
        fresh = λ b' t low high lt. elim (ℕ_discrete b b') [
          | yes here ↦
              subst (λ c. Holds rest.out c t) here
                (
                  (rest.before (b * x_len + t) (omega (arith, one_row b x_len))).0
                      ∙ (row.fresh t (omega arith) (omega arith)).0,
                  (rest.before (b * x_len + t) (omega (arith, one_row b x_len))).1
                      ∙ (row.fresh t (omega arith) (omega arith)).1,
                )
          | no there ↦ rest.fresh b' t (omega arith) (omega arith) lt
        ];
        before = λ k h.
            let later = rest.before k (omega (arith, one_row b x_len)) in
            let now = row.before k (omega arith) in (later.0 ∙ now.0, later.1 ∙ now.1);
      }

-- Printing a table whose slots hold the results of the tests.
module _ {Real : Type 0} (test : ℕ → ℕ → Real) (arr : List Real) (x_len n : ℕ)
    (small : n * x_len < 2 ^ 32)
    (holds : (b t : ℕ) → b < n → t < x_len → get_elem? arr (b * x_len + t) ≡ some (test b t)) where
  slot_lt : (b t : ℕ) → b < n → t < x_len → b * x_len + t < n * x_len
  slot_lt b t b_lt t_lt = omega (arith, one_row b x_len, mul-le-mul (b + 1) n x_len (omega arith))

  print_row_lem :
      (left t b : ℕ)
      → b < n
      → t + left ≤ x_len
      → print_row arr x_len left t b ≡ some (values test left t b)
  unfolding print_row values
  print_row_lem zero t b b_lt le = refl
  print_row_lem (suc left) t b b_lt le =
      let index : u32 (b * x_len + t) ≡ b * x_len + t =
        omega (arith, slot_lt b t b_lt (omega arith)) in
      rw
        (
          index,
          holds b t b_lt (omega arith),
          ◌>>=◌,
          print_row_lem left (t + 1) b b_lt (omega arith),
          ◌>>=◌,
        )
        refl

  print_rows_lem :
      (y_counts ys : List ℕ) (left b : ℕ)
      → ((j : ℕ) → get_elem? y_counts (b + j) ≡ get_elem? ys j)
      → length ys ≡ left
      → b + left ≤ n
      → print_rows arr x_len y_counts left b ≡ some (rows test x_len ys b)
  unfolding print_rows rows
  print_rows_lem y_counts [] zero b heads e le = refl
  print_rows_lem y_counts [] (suc left) b heads e le = absurd (omega arith)
  print_rows_lem y_counts (y ∷ ys) zero b heads e le = absurd (omega arith)
  print_rows_lem y_counts (y ∷ ys) (suc left) b heads e le =
      let head : get_elem? y_counts b ≡ some y = ap (get_elem? y_counts) (omega arith) ∙ heads 0 in
      let rest =
        print_rows_lem y_counts ys left (b + 1)
          (λ j. ap (get_elem? y_counts) (omega arith) ∙ heads (suc j)) (omega arith)
          (omega arith) in
      rw (head, ◌>>=◌, print_row_lem x_len 0 b (omega arith) (omega arith), ◌>>=◌, rest, ◌>>=◌) refl

-- Each of the two calls of malloc gives the slots asked for.
abbrev pub Gives : {Real : Type 0} → ((k slots : ℕ) → Option (List Real)) → (slots : ℕ) → Type 0
Gives {Real} malloc slots =
    (k : ℕ) → (us : List Real) × (malloc k slots ≡ some us) × (length us ≡ slots)

result_slots_lem :
    {Real : Type 0} (malloc : (k slots : ℕ) → Option (List Real)) (first second : ℕ → ℕ → Real)
    (x n : ℕ)
    → n * x < 2 ^ 32
    → n < 2 ^ 32
    → result_slots malloc first second x n ≡ n * x
unfolding result_slots
result_slots_lem malloc first second x n small few =
    rw (u64_small (4 * n) (omega arith)) (slots (products n x))
  where
    products : (n x : ℕ) → 4 * n * x ≡ 4 * (n * x)
    products n x = grind arith

    slots : 4 * n * x ≡ 4 * (n * x) → u64 (4 * n * x) / 4 ≡ n * x
    slots e = omega (arith, e)

-- From the tests to the output of a program that AsmGen generates, where both calls of malloc give
-- the tables, which have less than 2 ^ 32 slots for less than 2 ^ 32 branch counts: no store and no read is out of bounds, and each of the two tables is printed with a row
-- for each branch count, in order, which holds the results of its test for just this branch count and
-- each size, in order.
pub test_block-print_rows :
    {Real : Type 0} (malloc : (k slots : ℕ) → Option (List Real)) (first second : ℕ → ℕ → Real)
    (test_size_count : ℕ) (branch_counts : List ℕ)
    → Gives malloc (length branch_counts * test_size_count)
    → length branch_counts < 2 ^ 32
    → length branch_counts * test_size_count < 2 ^ 32
    → (results : List Real) × (ref_results : List Real) × (test_block malloc first second
          test_size_count
          (length branch_counts)
        ≡ some (results, ref_results))
      × (print_rows results test_size_count branch_counts (length branch_counts) 0
          ≡ some (rows first test_size_count branch_counts 0))
      × (print_rows ref_results test_size_count branch_counts (length branch_counts) 0
          ≡ some (rows second test_size_count branch_counts 0))
unfolding test_block
test_block-print_rows malloc first second x branch_counts gives few small =
    let n = length branch_counts in
    let (us, got0, size0) = gives 0 in
    let (vs, got1, size1) = gives 1 in
    let run =
      branch_rows-FilledRows malloc first second x n 0 (us, vs)
        (omega (arith, size0), omega (arith, size1), omega arith) in
    (
      run.out.0,
      run.out.1,
      rw (result_slots_lem malloc first second x n small few, got0, got1) run.returns,
      print_rows_lem first run.out.0 x n small
          (λ b t b_lt t_lt. (run.fresh b t (omega arith) (omega arith) t_lt).0) branch_counts
          branch_counts n 0 (λ j. ap (get_elem? branch_counts) (omega arith)) refl (omega arith),
      print_rows_lem second run.out.1 x n small
          (λ b t b_lt t_lt. (run.fresh b t (omega arith) (omega arith) t_lt).1) branch_counts
          branch_counts n 0 (λ j. ap (get_elem? branch_counts) (omega arith)) refl (omega arith),
    )
