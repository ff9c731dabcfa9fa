-- ===== src/InstructionRate/Typing/Tests.antt =====
-- Examples of calls of measureFunction.
use u_arch_test.Prelude.{◌≡◌, refl, true, false, List, [], ◌∷◌, none, All}
use u_arch_test.InstructionRate.Measure.{wrapper, int_test_arr, fp_test_arr, resolved}
use u_arch_test.InstructionRate.Typing.{
  Declaration, declares, float_arr, declared, is_listed, well_typed,
}
use u_arch_test.InstructionRate.Typing.Laws.{well_typed_x86, well_typed_arm, calls_fit}
use u_arch_test.InstructionRate.X86.{Features, blocks, run_blocks}
use u_arch_test.InstructionRate.Arm.Table.{arm_tests}

abbrev header : List Declaration
header = declares "loads" (float_arr ∷ []) ∷ []

-- A wrapper with an array of the wrong type, and an assembly function that wants an array.
wrong_array :
    well_typed header ("w" ∷ []) (wrapper "w" "loads" (int_test_arr ∷ []) ∷ []) "w" ≡ false
unfolding well_typed declared is_listed resolved
wrong_array = refl

no_array :
    well_typed header ("w" ∷ []) (wrapper "w" "loads" (fp_test_arr ∷ []) ∷ []) "loads" ≡ false
unfolding well_typed declared is_listed resolved
no_array = refl

abbrev haswell : Features
haswell = record { avx = true; avx2 = true; bmi2 = true; avx512 = false; fma = true; fma4 = false }

calls_fit_example :
    All (λ t. well_typed_x86 t ≡ true) (run_blocks haswell none blocks)
    × All (λ p. well_typed_arm p ≡ true) arm_tests
calls_fit_example = calls_fit haswell none
