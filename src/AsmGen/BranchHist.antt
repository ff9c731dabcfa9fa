-- ===== src/AsmGen/BranchHist.antt =====
-- runBranchHistTest of AsmGen/DataFiles/GccBranchHistFunction.c: the array of branch directions, and
-- the latency; and the clock differences of AsmGen/DataFiles/CommonFunctions.c.
pub mod Laws
mod Tests
use u_arch_test.Prelude.{
  ℕ, zero, suc, ◌+◌, ◌*◌, ◌%◌, ltb, if◌then◌else◌, Bool, true, false, List, [], Option, none, some,
  u32, u64, store, checked_div, ◌>>=◌,
}
use u_arch_test.Prelude.Int.{pos, wrap, sub_ℕ, scale, ◌+ℤ◌}
use u_arch_test.Timing.{Floats, Timespec}

-- CALC_TIME_DIFF without USE_CYCLE_TIMING, on integers of 64 bits.
pub time_diff : Timespec → Timespec → ℕ
time_diff s e = wrap 64 (scale 1000000000 (sub_ℕ e.sec s.sec) +ℤ sub_ℕ e.nsec s.nsec)

-- `latency = (double)TIME_DIFF_VALUE / (double)(iterations); latency = latency / branchCount`
pub branch_latency : (fl : Floats) (start end : Timespec) (iterations branch_count : ℕ) → fl.Real
branch_latency fl start end iterations branch_count =
    let latency =
      fl.narrow (fl.div (fl.real (pos (time_diff start end))) (fl.real (pos iterations))) in
    fl.narrow (fl.div latency (fl.narrow (fl.real (pos branch_count))))

-- `rand k` is the result of the k-th call of rand().
module _ (rand : ℕ → ℕ) (random : Bool) where
  -- `random ? rand() % 2 : 0`, with the number of the next call.
  pub direction : (drawn : ℕ) → ℕ × ℕ
  direction drawn = if random then (rand drawn % 2, drawn + 1) else (0, drawn)

  -- The inner loop, with `left` branches to go.
  pub fill_branches : (left i test_arr_idx : ℕ) → List ℕ → (drawn : ℕ) → Option (List ℕ × ℕ)
  fill_branches zero i test_arr_idx arr drawn = some (arr, drawn)
  fill_branches (suc left) i test_arr_idx arr drawn = do
    let (value, drawn') = direction drawn
    arr' ← store arr (u32 (test_arr_idx + i)) value
    fill_branches left (i + 1) test_arr_idx arr' drawn'

  -- The outer loop on fuel, up to `total = branchCount * historyLen`.
  pub fill_history :
      (fuel branch_count total test_arr_idx : ℕ) → List ℕ → (drawn : ℕ) → Option (List ℕ × ℕ)
  fill_history zero branch_count total test_arr_idx arr drawn = none
  fill_history (suc fuel) branch_count total test_arr_idx arr drawn =
      elim (ltb test_arr_idx total) [
        | false ↦ some (arr, drawn)
        | true ↦ do
          (arr', drawn') ← fill_branches branch_count 0 test_arr_idx arr drawn
          fill_history fuel branch_count total (u32 (test_arr_idx + branch_count)) arr' drawn'
      ]

  -- The latency per branch, and the array that the test runs on. `block` is what malloc gives for a
  -- number of slots; its result is not tested.
  pub run_branch_hist_test :
      (fl : Floats) (block : ℕ → Option (List ℕ)) (start end : Timespec)
      (history_len branch_count drawn : ℕ)
      → Option (fl.Real × List ℕ)
  run_branch_hist_test fl block start end history_len branch_count drawn = do
    iterations ← checked_div 33554432 branch_count
    let arr = elim (block (u64 (branch_count * history_len))) as (λ x. List ℕ) [
      | none ↦ []
      | some slots ↦ slots
    ]
    (arr', drawn') ←
        fill_history (history_len + 1) branch_count (u32 (branch_count * history_len)) 0 arr drawn
    some (branch_latency fl start end iterations branch_count, arr')
