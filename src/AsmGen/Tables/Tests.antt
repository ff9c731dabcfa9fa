-- ===== src/AsmGen/Tables/Tests.antt =====
-- An example of the tables of AsmGen.
use u_arch_test.Prelude.{ℕ, ◌+◌, ◌*◌, ◌≡◌, List, [], ◌∷◌, some, Option, replicate, refl, arith}
use u_arch_test.AsmGen.Tables.{block_output}
use u_arch_test.AsmGen.Tables.Output.{output, block_output_lem}

abbrev branch_counts : List ℕ
branch_counts = 4 ∷ 16 ∷ 64 ∷ []

abbrev random_result : ℕ → ℕ → ℕ
random_result b t = b * 100 + t

abbrev predictable_result : ℕ → ℕ → ℕ
predictable_result b t = b * 10 + t

abbrev test_sizes : List ℕ
test_sizes = 2 ∷ 4 ∷ 8 ∷ 16 ∷ 32 ∷ []

abbrev zeros : (k slots : ℕ) → Option (List ℕ)
zeros k slots = some (replicate slots 0)

block_output_lem_example :
    block_output zeros random_result predictable_result test_sizes branch_counts
    ≡ some (
      output random_result test_sizes branch_counts,
      output predictable_result test_sizes branch_counts,
    )
block_output_lem_example =
    block_output_lem zeros random_result predictable_result test_sizes branch_counts
      (λ k. (replicate 15 0, refl, refl)) (omega arith) (omega arith)
