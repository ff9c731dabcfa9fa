-- ===== src/AsmGen/Indirect/Laws.antt =====
-- The jump targets of AsmGen/DataFiles/GccIndirectBranchFunction.c.
use u_arch_test.Prelude.{
  ℕ, zero, suc, ◌+◌, ◌/◌, ◌%◌, ◌≤◌, ◌<◌, ◌≡◌, refl, subst, ap, ◌∙◌, ==-ne, Bool, true, false, List,
  [], ◌∷◌, Option, some, All, get_elem?, get_elem?-set_self, get_elem?-set_ne, length, length-set,
  set, store_lem, checked_div_lem, next_int_lem, ◌^◌, arith, ◌>>=◌,
}
use u_arch_test.Timing.{Floats, Timespec}
use u_arch_test.AsmGen.BranchHist.{branch_latency}
use u_arch_test.AsmGen.Indirect.{
  Mode, cycle, random_targets, middle, unwritten, target, write_targets, test_array, test_arrays,
  run_indirect_branch_test,
}
use native.Mathlib.Decide.{ℕ_discrete}

abbrev pub is_written : Mode → Bool
is_written unwritten = false
is_written _ = true

-- What a mode promises of the target with index k: the index itself, the middle, or any.
abbrev pub IsTarget : Mode → (target_count k value : ℕ) → Type 0
IsTarget cycle target_count k value = value ≡ k
IsTarget middle target_count k value = value ≡ target_count / 2
IsTarget _ target_count k value = Unit

-- Every branch jumps to one of its targets, as the mode promises.
abbrev pub HasTargets : Mode → (target_count : ℕ) → List ℕ → Type 0
HasTargets mode target_count arr =
    (length arr ≡ target_count)
    × ((k : ℕ)
        → k < target_count
        → (value : ℕ) × (get_elem? arr k ≡ some value)
          × (value < target_count)
          × IsTarget mode target_count k value)

module _ (rand : ℕ → ℕ) (malloc : ℕ → Option (List ℕ)) where
  record Chosen (mode : Mode) (tc i : ℕ) (r : Option (ℕ × ℕ)) : Type 0 where
    value : ℕ
    drawn' : ℕ
    returns : r ≡ some (value, drawn')
    below : value < tc
    promised : IsTarget mode tc i value

  target-Chosen :
      (mode : Mode) (tc i drawn : ℕ)
      → is_written mode ≡ true
      → i < tc
      → Chosen mode tc i (target rand malloc mode tc i drawn)
  unfolding target
  target-Chosen cycle tc i drawn w lt = record {
    value = i;
    drawn' = drawn;
    returns = refl;
    below = lt;
    promised = refl;
  }
  target-Chosen random_targets tc i drawn w lt = record {
    value = rand drawn % tc;
    drawn' = drawn + 1;
    returns = rw (==-ne tc 0 (λ e. absurd (omega arith))) refl;
    below = grind arith;
    promised = tt;
  }
  target-Chosen middle tc i drawn w lt = record {
    value = tc / 2;
    drawn' = drawn;
    returns = refl;
    below = omega arith;
    promised = refl;
  }
  target-Chosen unwritten tc i drawn w lt = cc

  test_array_written :
      (mode : Mode) (tc idx drawn : ℕ) (slots : List ℕ)
      → is_written mode ≡ true
      → malloc idx ≡ some slots
      → test_array rand malloc mode tc idx drawn
        ≡ write_targets rand malloc mode tc tc 0 slots drawn
  unfolding test_array
  test_array_written cycle tc idx drawn slots w given = rw given refl
  test_array_written random_targets tc idx drawn slots w given = rw given refl
  test_array_written middle tc idx drawn slots w given = rw given refl
  test_array_written unwritten tc idx drawn slots w given = cc

  module _ (mode : Mode) (tc : ℕ) (written : is_written mode ≡ true) where
    abbrev Good : List ℕ → ℕ → Type 0
    Good arr k =
        (value : ℕ) × (get_elem? arr k ≡ some value) × (value < tc) × IsTarget mode tc k value

    record Writes (left i : ℕ) (arr : List ℕ) (r : Option (List ℕ × ℕ)) : Type 0 where
      out : List ℕ
      drawn' : ℕ
      returns : r ≡ some (out, drawn')
      same : length out ≡ length arr
      fresh : (k : ℕ) → i ≤ k → k < i + left → Good out k
      before : (k : ℕ) → k < i → get_elem? out k ≡ get_elem? arr k

    write_targets-Writes :
        (left i drawn : ℕ) (arr : List ℕ)
        → length arr ≡ tc
        → i + left ≤ tc
        → Writes left i arr (write_targets rand malloc mode tc left i arr drawn)
    unfolding write_targets
    write_targets-Writes zero i drawn arr size le = record {
      out = arr;
      drawn' = drawn;
      returns = refl;
      same = refl;
      fresh = λ k a b. absurd (omega arith);
      before = λ k a. refl;
    }
    write_targets-Writes (suc left) i drawn arr size le =
        let c = target-Chosen mode tc i drawn written (omega arith) in
        let rest =
          write_targets-Writes left (i + 1) c.drawn' (set arr i c.value)
            (length-set arr i c.value ∙ size) (omega arith) in
        record {
          out = rest.out;
          drawn' = rest.drawn';
          returns =
              rw (c.returns, ◌>>=◌, store_lem arr i c.value (omega (arith, size)), ◌>>=◌)
                rest.returns;
          same = rest.same ∙ length-set arr i c.value;
          fresh = λ k a b. elim (ℕ_discrete i k) [
            | yes here ↦ subst (Good rest.out) here (
              c.value,
              rest.before i (omega arith) ∙ get_elem?-set_self arr i c.value (omega (arith, size)),
              c.below,
              c.promised,
            )
            | no there ↦ rest.fresh k (omega arith) (omega arith)
          ];
          before = λ k a.
              rest.before k (omega arith)
              ∙ get_elem?-set_ne arr i k c.value (λ e. absurd (omega arith));
        }

    -- Every call of malloc gives an array of the targets' number.
    abbrev pub Allocates : Type 0
    Allocates = (k : ℕ) → (slots : List ℕ) × (malloc k ≡ some slots) × (length slots ≡ tc)

    test_arrays_lem :
        (left idx drawn : ℕ)
        → idx + left < 2 ^ 31
        → Allocates
        → (arrays : List (List ℕ)) × (drawn' : ℕ) × (test_arrays rand malloc mode tc left idx drawn
            ≡ some (arrays, drawn'))
          × (length arrays ≡ left)
          × All (HasTargets mode tc) arrays
    unfolding test_arrays
    test_arrays_lem zero idx drawn few allocates = ([], drawn, refl, refl, tt)
    test_arrays_lem (suc left) idx drawn few allocates =
        let (slots, given, room) = allocates idx in
        let first = write_targets-Writes tc 0 drawn slots room (omega arith) in
        let (rest, drawn', returns, count, good) =
          test_arrays_lem left (idx + 1) first.drawn' (omega arith) allocates in
        (
          first.out ∷ rest,
          drawn',
          rw
              (
                test_array_written mode tc idx drawn slots written given,
                first.returns,
                ◌>>=◌,
                next_int_lem idx (omega arith),
                ◌>>=◌,
                returns,
                ◌>>=◌,
              )
              refl,
          ap suc count,
          ((first.same ∙ room, λ k lt. first.fresh k (omega arith) (omega arith)), good),
        )

    -- runIndirectBranchTest in one of its three modes, for 1 to 2 ^ 31 - 1 branches, where every malloc gives
    -- the slots asked for: it returns, no access is out of bounds, and the test runs on one array for
    -- each branch, which holds a target for each index, below the number of targets: the index itself in
    -- the mode that cycles, the middle one in the mode for that.
    pub run_indirect_branch_test_lem :
        (fl : Floats) (start end : Timespec) (branch_count drawn : ℕ)
        → 0 < branch_count
        → branch_count < 2 ^ 31
        → Allocates
        → (arrays : List (List ℕ)) × (run_indirect_branch_test rand malloc mode tc true fl start end
              branch_count drawn
            ≡ some (branch_latency fl start end (33554432 / branch_count) branch_count, arrays))
          × (length arrays ≡ branch_count)
          × All (HasTargets mode tc) arrays
    unfolding run_indirect_branch_test
    run_indirect_branch_test_lem fl start end branch_count drawn pos few allocates =
        let (arrays, drawn', returns, count, good) =
          test_arrays_lem branch_count 0 drawn (omega arith) allocates in
        (
          arrays,
          rw (checked_div_lem 33554432 branch_count pos, ◌>>=◌, returns, ◌>>=◌) refl,
          count,
          good,
        )
