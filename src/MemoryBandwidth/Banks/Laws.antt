-- ===== src/MemoryBandwidth/Banks/Laws.antt =====
-- TestBankConflicts of MemoryBandwidth/MemoryBandwidth.c: what its table holds.
use u_arch_test.Prelude.{
  ℕ, zero, suc, ◌+◌, ◌*◌, ◌≤◌, ◌<◌, ◌≡◌, ◌≢◌, refl, sym, subst, ap, ◌∙◌, Bool, true, List, Option,
  some, get_elem?, get_elem?-set_self, get_elem?-set_ne, length, length-set, length-replicate, set,
  replicate, store_lem, arith, ◌>>=◌,
}
use native.Mathlib.Decide.{ℕ_discrete}
use u_arch_test.MemoryBandwidth.Banks.{
  Ended, all_tested, spacing_loop, size_loop, test_bank_conflicts, bank_printed,
}

-- The table has an entry for each spacing and size.
abbrev IsTable {ℓ} : {Real : Type ℓ} → List Real → Type 0
IsTable results = length results ≡ 650

module _ {Real : Type 0} (unset : Real) (memalign : ℕ → Bool) (loads : ℕ → ℕ → Real) where
  abbrev entry : List Real → (size spacing : ℕ) → Option Real
  entry results size spacing = get_elem? results (spacing * 10 + size)

  -- The column of a size is filled from some spacing on, and no other entry changes.
  record Filled (size left spacing : ℕ) (results : List Real) (r : Option (List Real))
      : Type 0 where
    out : List Real
    returns : r ≡ some out
    same : length out ≡ length results
    fresh : (s : ℕ) → spacing ≤ s → s < spacing + left → entry out size s ≡ some (loads size s)
    before : (s : ℕ) → s < spacing → entry out size s ≡ entry results size s
    others : (size' s : ℕ) → size' < 10 → size' ≢ size → entry out size' s ≡ entry results size' s

  spacing_loop-Filled :
      (size left spacing : ℕ) (results : List Real)
      → IsTable results
      → size < 10
      → spacing + left ≤ 65
      → Filled size left spacing results
          (spacing_loop unset memalign loads size left spacing results)
  unfolding spacing_loop
  spacing_loop-Filled size zero spacing results table lt le = record {
    out = results;
    returns = refl;
    same = refl;
    fresh = λ s a b. absurd (omega arith);
    before = λ s a. refl;
    others = λ size' s a b. refl;
  }
  spacing_loop-Filled size (suc left) spacing results table lt le =
      let at = spacing * 10 + size in
      let results' = set results at (loads size spacing) in
      let rest =
        spacing_loop-Filled size left (spacing + 1) results'
          (length-set results at (loads size spacing) ∙ table) lt (omega arith) in
      record {
        out = rest.out;
        returns =
            rw (store_lem results at (loads size spacing) (omega (arith, table)), ◌>>=◌)
              rest.returns;
        same = rest.same ∙ length-set results at (loads size spacing);
        fresh = λ s a b. elim (ℕ_discrete spacing s) [
          | yes e ↦
              rest.before s (omega arith)
              ∙ ap (λ i. get_elem? results' (i * 10 + size)) (sym e)
              ∙ get_elem?-set_self results at (loads size spacing) (omega (arith, table))
              ∙ ap (λ i. some (loads size i)) e
          | no ne ↦ rest.fresh s (omega arith) (omega arith)
        ];
        before = λ s a.
            rest.before s (omega arith)
            ∙ get_elem?-set_ne results at (s * 10 + size) (loads size spacing)
                (λ e. absurd (omega arith));
        others = λ size' s a b.
            rest.others size' s a b
            ∙ get_elem?-set_ne results at (s * 10 + size') (loads size spacing)
                (λ e. b (omega arith));
      }

  -- The columns of the sizes from some size on are filled, and no earlier one changes.
  record Tested (left size : ℕ) (results : List Real) (r : Option (Ended Real)) : Type 0 where
    out : List Real
    returns : r ≡ some (all_tested out 0)
    fresh : (i s : ℕ) → size ≤ i → i < size + left → s < 65 → entry out i s ≡ some (loads i s)
    before : (i s : ℕ) → i < size → entry out i s ≡ entry results i s

  size_loop-Tested :
      (left size : ℕ) (results : List Real)
      → ((k : ℕ) → memalign k ≡ true)
      → IsTable results
      → size + left ≤ 10
      → Tested left size results (size_loop unset memalign loads left size results)
  unfolding size_loop
  size_loop-Tested zero size results ok table le = record {
    out = results;
    returns = refl;
    fresh = λ i s a b c. absurd (omega arith);
    before = λ i s a. refl;
  }
  size_loop-Tested (suc left) size results ok table le =
      let column = spacing_loop-Filled size 65 0 results table (omega arith) (omega arith) in
      let rest =
        size_loop-Tested left (size + 1) column.out ok (column.same ∙ table) (omega arith) in
      record {
        out = rest.out;
        returns = rw (size_loop, ok size, column.returns, ◌>>=◌) rest.returns;
        fresh = λ i s a b c. elim (ℕ_discrete i size) [
          | yes e ↦
              rest.before i s (omega arith)
              ∙ subst (λ k. entry column.out k s ≡ some (loads k s)) (sym e)
                  (column.fresh s (omega arith) (omega arith))
          | no ne ↦ rest.fresh i s (omega arith) (omega arith) c
        ];
        before = λ i s a.
            rest.before i s (omega arith)
            ∙ column.others i s (omega arith) (λ e. absurd (omega arith));
      }

  -- TestBankConflicts, where every array can be had: no store is out of bounds, and what is bank_printed
  -- for each of the ten sizes and each spacing from 0 to 64 is the measurement of just those.
  pub test_bank_conflicts_lem :
      ((k : ℕ) → memalign k ≡ true)
      → (results : List Real) × (test_bank_conflicts unset memalign loads
          ≡ some (all_tested results 0))
        × ((size spacing : ℕ)
            → size < 10
            → spacing ≤ 64
            → bank_printed unset memalign loads results size spacing ≡ some (loads size spacing))
  unfolding test_bank_conflicts bank_printed
  test_bank_conflicts_lem ok =
      let run =
        size_loop-Tested 10 0 (replicate 650 unset) ok (length-replicate 650 unset) (omega arith) in
      (
        run.out,
        run.returns,
        λ size spacing a b. run.fresh size spacing (omega arith) a (omega arith),
      )
