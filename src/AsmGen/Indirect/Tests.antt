-- ===== src/AsmGen/Indirect/Tests.antt =====
-- An example of runIndirectBranchTest.
use u_arch_test.Prelude.{
  ℕ, ◌+◌, ◌*◌, ◌/◌, ◌≡◌, refl, true, List, Option, some, All, length, replicate, arith,
}
use u_arch_test.Timing.Tests.{integers, morning, later}
use u_arch_test.AsmGen.BranchHist.{branch_latency}
use u_arch_test.AsmGen.Indirect.{cycle, run_indirect_branch_test}
use u_arch_test.AsmGen.Indirect.Laws.{HasTargets, run_indirect_branch_test_lem}

abbrev draws : ℕ → ℕ
draws k = k * 5 + 2

abbrev four_slots : ℕ → Option (List ℕ)
four_slots k = some (replicate 4 k)

run_indirect_branch_test_lem_example :
    (arrays : List (List ℕ)) × (run_indirect_branch_test draws four_slots cycle 4 true integers
        morning later 3 0
      ≡ some (branch_latency integers morning later (33554432 / 3) 3, arrays))
    × (length arrays ≡ 3)
    × All (HasTargets cycle 4) arrays
run_indirect_branch_test_lem_example =
    run_indirect_branch_test_lem draws four_slots cycle 4 refl integers morning later 3 0
      (omega arith) (omega arith) (λ k. (replicate 4 k, refl, refl))
