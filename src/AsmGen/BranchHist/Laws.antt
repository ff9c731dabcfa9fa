-- ===== src/AsmGen/BranchHist/Laws.antt =====
-- The branch directions of AsmGen/DataFiles/GccBranchHistFunction.c.
use u_arch_test.Prelude.{
  ℕ, zero, suc, ◌+◌, ◌*◌, ◌/◌, ◌%◌, ◌^◌, ◌≤◌, ◌<◌, ◌≡◌, refl, sym, ap, ◌∙◌, lt→ltb, le→ltb,
  if◌then◌else◌, Bool, true, false, List, Option, some, get_elem?, get_elem?-set_self,
  get_elem?-set_ne, length, length-set, set, store_lem, u32, u64, checked_div_lem, arith, ◌>>=◌,
}
use u_arch_test.Timing.{Floats, Timespec}
use u_arch_test.AsmGen.BranchHist.{
  direction, fill_branches, fill_history, branch_latency, run_branch_hist_test,
}
use native.Mathlib.Decide.{ℕ_discrete, dec_lt}

direction_lem :
    (rand : ℕ → ℕ) (random : Bool) (drawn0 slot : ℕ)
    → direction rand random (if random then drawn0 + slot else drawn0) ≡ (
      if random then rand (drawn0 + slot) % 2 else 0,
      if random then drawn0 + (slot + 1) else drawn0,
    )
unfolding direction
direction_lem rand true drawn0 slot = ap (λ n. (rand (drawn0 + slot) % 2, n)) (omega arith)
direction_lem rand false drawn0 slot = refl

one_more : (rounds bc : ℕ) → suc rounds * bc ≡ bc + rounds * bc
one_more rounds bc = grind arith

module _ (rand : ℕ → ℕ) (random : Bool) (drawn0 : ℕ) where
  -- The direction in a slot, and the number of the call of rand() for it.
  abbrev pub direction_of : (slot : ℕ) → ℕ
  direction_of slot = if random then rand (drawn0 + slot) % 2 else 0

  abbrev drawn_at : (slot : ℕ) → ℕ
  drawn_at slot = if random then drawn0 + slot else drawn0

  -- A loop that fills some slots from one on with their directions.
  record Directed (left from : ℕ) (arr : List ℕ) (r : Option (List ℕ × ℕ)) : Type 0 where
    out : List ℕ
    returns : r ≡ some (out, drawn_at (from + left))
    same : length out ≡ length arr
    fresh : (k : ℕ) → from ≤ k → k < from + left → get_elem? out k ≡ some (direction_of k)
    before : (k : ℕ) → k < from → get_elem? out k ≡ get_elem? arr k

  fill_branches-Directed :
      (left i at drawn : ℕ) (arr : List ℕ)
      → drawn ≡ drawn_at (at + i)
      → at + i + left ≤ length arr
      → length arr < 2 ^ 31
      → Directed left (at + i) arr (fill_branches rand random left i at arr drawn)
  unfolding fill_branches
  fill_branches-Directed zero i at drawn arr e room small = record {
    out = arr;
    returns = ap (λ n. some (arr, n)) (e ∙ ap drawn_at (omega arith));
    same = refl;
    fresh = λ k a b. absurd (omega arith);
    before = λ k a. refl;
  }
  fill_branches-Directed (suc left) i at drawn arr e room small =
      let slot = at + i in
      let v = direction_of slot in
      let rest =
        fill_branches-Directed left (i + 1) at (drawn_at (slot + 1)) (set arr slot v)
          (ap drawn_at (omega arith)) (omega (arith, length-set arr slot v))
          (omega (arith, length-set arr slot v)) in
      let index : u32 (at + i) ≡ slot = omega arith in
      record {
        out = rest.out;
        returns =
            rw
              (
                e,
                direction_lem rand random drawn0 slot,
                index,
                store_lem arr slot v (omega arith),
                ◌>>=◌,
              )
              (rest.returns ∙ ap (λ n. some (rest.out, drawn_at n)) (omega arith));
        same = rest.same ∙ length-set arr slot v;
        fresh = λ k a b. elim (ℕ_discrete slot k) [
          | yes here ↦
              rest.before k (omega arith)
              ∙ ap (get_elem? (set arr slot v)) (sym here)
              ∙ get_elem?-set_self arr slot v (omega arith)
              ∙ ap (λ j. some (direction_of j)) here
          | no there ↦ rest.fresh k (omega arith) (omega arith)
        ];
        before = λ k a.
            rest.before k (omega arith) ∙ get_elem?-set_ne arr slot k v (λ e. absurd (omega arith));
      }

  fill_history-Directed :
      (fuel rounds branch_count at drawn total : ℕ) (arr : List ℕ)
      → drawn ≡ drawn_at at
      → total ≡ at + rounds * branch_count
      → 0 < branch_count
      → rounds < fuel
      → total ≤ length arr
      → length arr < 2 ^ 31
      → Directed
          (rounds * branch_count)
          at
          arr
          (fill_history rand random fuel branch_count total at arr drawn)
  unfolding fill_history
  fill_history-Directed zero rounds bc at drawn total arr e sum pos fuel room small =
      absurd (omega arith)
  fill_history-Directed (suc fuel) zero bc at drawn total arr e sum pos enough room small = record {
    out = arr;
    returns =
        rw (fill_history, le→ltb at total (omega arith))
          (ap (λ n. some (arr, n)) (e ∙ ap drawn_at (omega arith)));
    same = refl;
    fresh = λ k a b. absurd (omega arith);
    before = λ k a. refl;
  }
  fill_history-Directed (suc fuel) (suc rounds) bc at drawn total arr e sum pos enough room small =
      let more = one_more rounds bc in
      let row =
        fill_branches-Directed bc 0 at drawn arr (e ∙ ap drawn_at (omega arith))
          (omega (arith, more)) small in
      let rest =
        fill_history-Directed fuel rounds bc (at + bc) (drawn_at (at + 0 + bc)) total row.out
          (ap drawn_at (omega arith)) (omega (arith, more)) pos (omega arith)
          (omega (arith, row.same)) (omega (arith, row.same)) in
      let next : u32 (at + bc) ≡ at + bc = omega (arith, more) in
      record {
        out = rest.out;
        returns =
            rw (fill_history, lt→ltb at total (omega (arith, more)), row.returns, ◌>>=◌, next)
              (rest.returns ∙ ap (λ n. some (rest.out, drawn_at n)) (omega (arith, more)));
        same = rest.same ∙ row.same;
        fresh = λ k a b. elim (dec_lt k (at + bc)) [
          | yes here ↦ rest.before k here ∙ row.fresh k (omega arith) (omega arith)
          | no there ↦ rest.fresh k (omega arith) (omega (arith, more))
        ];
        before = λ k a. rest.before k (omega arith) ∙ row.before k (omega arith);
      }

run_on_history :
    (rand : ℕ → ℕ) (random : Bool) (fl : Floats) (block : ℕ → Option (List ℕ))
    (start end : Timespec) (history_len branch_count drawn drawn' : ℕ) (slots out : List ℕ)
    → 0 < branch_count
    → branch_count * history_len < 2 ^ 31
    → block (branch_count * history_len) ≡ some slots
    → fill_history rand random
        (history_len + 1)
        branch_count
        (branch_count * history_len)
        0
        slots
        drawn
      ≡ some (out, drawn')
    → run_branch_hist_test rand random fl block start end history_len branch_count drawn
      ≡ some (branch_latency fl start end (33554432 / branch_count) branch_count, out)
unfolding run_branch_hist_test
run_on_history rand random fl block start end history_len bc drawn drawn' slots out pos small given
      fills =
    let total = bc * history_len in
    let whole : u64 total ≡ total = omega arith in
    let narrow : u32 total ≡ total = omega arith in
    rw (checked_div_lem 33554432 bc pos, ◌>>=◌, whole, narrow, given, fills, ◌>>=◌) refl

-- runBranchHistTest, with at least one branch, fewer than 2 ^ 31 directions and a malloc that gives the
-- slots asked for: it returns, no access is out of bounds, and the test runs on an array of
-- branchCount * historyLen directions, the lowest bits of successive results of rand() in the random
-- mode and zeros in the other.
pub run_branch_hist_test_lem :
    (rand : ℕ → ℕ) (random : Bool) (fl : Floats) (block : ℕ → Option (List ℕ))
    (start end : Timespec) (history_len branch_count drawn : ℕ) (slots : List ℕ)
    → 0 < branch_count
    → branch_count * history_len < 2 ^ 31
    → block (branch_count * history_len) ≡ some slots
    → length slots ≡ branch_count * history_len
    → (arr : List ℕ) × (run_branch_hist_test rand random fl block start end history_len branch_count
          drawn
        ≡ some (branch_latency fl start end (33554432 / branch_count) branch_count, arr))
      × (length arr ≡ branch_count * history_len)
      × ((k : ℕ)
          → k < branch_count * history_len
          → get_elem? arr k ≡ some (if random then rand (drawn + k) % 2 else 0))
run_branch_hist_test_lem rand random fl block start end history_len branch_count drawn slots pos
      small given room =
    let total = branch_count * history_len in
    let flipped : history_len * branch_count ≡ total = grind arith in
    let run =
      fill_history-Directed rand random drawn (history_len + 1) history_len branch_count 0 drawn
        total slots (ground arith) (omega (arith, flipped)) pos (omega arith) (omega (arith, room))
        (omega (arith, room)) in
    (
      run.out,
      run_on_history rand random fl block start end history_len branch_count drawn _ slots run.out
          pos small given run.returns,
      run.same ∙ room,
      λ k h. run.fresh k (omega arith) (omega (arith, flipped)),
    )
