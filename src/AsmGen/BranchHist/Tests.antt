-- ===== src/AsmGen/BranchHist/Tests.antt =====
-- An example of runBranchHistTest.
use u_arch_test.Prelude.{
  ℕ, ◌+◌, ◌*◌, ◌/◌, ◌%◌, ◌<◌, ◌≡◌, refl, if◌then◌else◌, true, List, Option, some, get_elem?, length,
  replicate, arith,
}
use u_arch_test.Timing.Tests.{integers, morning, later}
use u_arch_test.AsmGen.BranchHist.{branch_latency, run_branch_hist_test}
use u_arch_test.AsmGen.BranchHist.Laws.{run_branch_hist_test_lem}

abbrev draws : ℕ → ℕ
draws k = k * 5 + 2

abbrev fresh : ℕ → Option (List ℕ)
fresh n = some (replicate n 9)

run_branch_hist_test_lem_example :
    (arr : List ℕ) × (run_branch_hist_test draws true integers fresh morning later 6 4 3
      ≡ some (branch_latency integers morning later (33554432 / 4) 4, arr))
    × (length arr ≡ 24)
    × ((k : ℕ) → k < 24 → get_elem? arr k ≡ some (if true then draws (3 + k) % 2 else 0))
run_branch_hist_test_lem_example =
    run_branch_hist_test_lem draws true integers fresh morning later 6 4 3 (replicate 24 9)
      (omega arith) (omega arith) refl refl
