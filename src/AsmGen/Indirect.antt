-- ===== src/AsmGen/Indirect.antt =====
-- runIndirectBranchTest of AsmGen/DataFiles/GccIndirectBranchFunction.c: the arrays of jump targets.
-- The jump tables, which the assembly fills itself, are left out.
pub mod Laws
mod Tests
use u_arch_test.Prelude.{
  ℕ, zero, suc, ◌+◌, ◌/◌, ◌%◌, ◌==◌, if◌then◌else◌, Bool, List, [], ◌∷◌, Option, none, some, store,
  checked_div, block_slots, next_int, ◌>>=◌,
}
use u_arch_test.Timing.{Floats, Timespec}
use u_arch_test.AsmGen.BranchHist.{branch_latency}

-- The modes, by their numbers; in any other nothing is written.
pub data Mode : Type 0 where
  cycle random_targets middle unwritten : Mode

pub mode_of : ℕ → Mode
mode_of mode =
    if mode == 1
    then random_targets
    else if mode == 0
    then cycle
    else if mode == 2
    then middle
    else unwritten

-- `rand k` is the result of the k-th call of rand(), and `malloc k` what the k-th call of malloc for
-- an array of targets gives; its result is not tested.
module _ (rand : ℕ → ℕ) (malloc : ℕ → Option (List ℕ)) (mode : Mode) (target_count : ℕ) where
  -- `testArr[i]`, with the number of the next call of rand().
  pub target : (i drawn : ℕ) → Option (ℕ × ℕ)
  target i drawn = elim mode [
    | cycle ↦ some (i, drawn)
    | random_targets ↦
        if target_count == 0 then none else some (rand drawn % target_count, drawn + 1)
    | middle ↦ some (target_count / 2, drawn)
    | unwritten ↦ none
  ]

  -- The loop over the targets, with `left` to go.
  pub write_targets : (left i : ℕ) → List ℕ → (drawn : ℕ) → Option (List ℕ × ℕ)
  write_targets zero i test_arr drawn = some (test_arr, drawn)
  write_targets (suc left) i test_arr drawn = do
    (value, drawn') ← target i drawn
    test_arr' ← store test_arr i value
    write_targets left (i + 1) test_arr' drawn'

  -- The array of a branch.
  pub test_array : (test_arr_idx drawn : ℕ) → Option (List ℕ × ℕ)
  test_array test_arr_idx drawn = elim mode [
    | unwritten ↦ some (block_slots (malloc test_arr_idx), drawn)
    | _ ↦ write_targets target_count 0 (block_slots (malloc test_arr_idx)) drawn
  ]

  -- The loop over the branches, with `left` to go, whose counter is an int.
  pub test_arrays : (left test_arr_idx drawn : ℕ) → Option (List (List ℕ) × ℕ)
  test_arrays zero test_arr_idx drawn = some ([], drawn)
  test_arrays (suc left) test_arr_idx drawn = do
    (test_arr, drawn') ← test_array test_arr_idx drawn
    next_idx ← next_int test_arr_idx
    (rest, drawn'') ← test_arrays left next_idx drawn'
    some (test_arr ∷ rest, drawn'')

  -- The latency per branch, and the arrays that the test runs on; `pointers` is whether malloc gives
  -- memory for `testArrToArr` and `jumpTables`, to which every round writes.
  pub run_indirect_branch_test :
      (pointers : Bool) (fl : Floats) (start end : Timespec) (branch_count drawn : ℕ)
      → Option (fl.Real × List (List ℕ))
  run_indirect_branch_test pointers fl start end branch_count drawn = do
    iterations ← checked_div 33554432 branch_count
    (arrays, drawn') ← test_arrays branch_count 0 drawn
    (if pointers then some (branch_latency fl start end iterations branch_count, arrays) else none)
