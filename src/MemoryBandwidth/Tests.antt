-- ===== src/MemoryBandwidth/Tests.antt =====
-- Examples of MemoryBandwidth.
use u_arch_test.Prelude.{ℕ, ◌+◌, ◌*◌, ◌%◌, ◌≤◌, ◌<◌, ◌≡◌, List, some, replicate, arith}
use u_arch_test.Prelude.Int.{ℤ, pos}
use u_arch_test.Timing.Tests.{integers}
use u_arch_test.MemoryBandwidth.Iterations.{get_iteration_count}
use u_arch_test.MemoryBandwidth.Iterations.Laws.{get_iteration_count_lem}
use u_arch_test.MemoryBandwidth.Scalar.{done, out_of_fuel, Sums, initial, total_sum, scalar_read}
use u_arch_test.MemoryBandwidth.Scalar.Passes.{passes}
use u_arch_test.MemoryBandwidth.Scalar.Laws.{scalar_read_lem, scalar_read_skewed}

get_iteration_count_lem_example :
    (iterations : ℕ) × (get_iteration_count 48 4 10 ≡ some (iterations, 10))
    × (iterations % 2 ≡ 0)
    × (8 ≤ iterations)
    × (10485760 < (iterations + 1) * 48)
    × (8 < iterations → iterations * 48 ≤ 10485808)
get_iteration_count_lem_example = get_iteration_count_lem 48 4 10 (omega arith) (omega arith)

abbrev ones : List ℤ
ones = replicate 24 (pos 1)

scalar_read_lem_example :
    (sums : Sums integers) × (passes integers ones 3 2 (initial integers) ≡ some sums)
    × (scalar_read integers ones 24 2 0 7 ≡ done (total_sum integers sums))
scalar_read_lem_example =
    scalar_read_lem integers ones 24 2 (omega arith) (omega arith) (omega arith) (omega arith)

scalar_read_skewed_example : scalar_read integers ones 24 1 4 100 ≡ out_of_fuel
scalar_read_skewed_example =
    scalar_read_skewed integers ones 24 1 4 (omega arith) (omega arith) (omega arith)
      (λ e. absurd (omega arith)) (omega arith) 100
