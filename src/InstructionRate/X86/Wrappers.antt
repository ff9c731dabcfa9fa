-- ===== src/InstructionRate/X86/Wrappers.antt =====
-- InstructionRate/x86instructionrate.c: the functions that pass a test its arrays.
use u_arch_test.Prelude.{List, [], ◌∷◌}
use u_arch_test.InstructionRate.Measure.{
  Wrapper, wrapper, int_test_arr, fp_test_arr, int_sink_arr, fp_sink_arr,
}

abbrev pub x86_wrappers : List Wrapper
x86_wrappers =
    wrapper "load128wrapper" "load128" (int_test_arr ∷ [])
    ∷ wrapper "spacedload128wrapper" "spacedload128" (int_test_arr ∷ [])
    ∷ wrapper "spacedstorescalarwrapper" "spacedstorescalar" (int_test_arr ∷ [])
    ∷ wrapper "load256wrapper" "load256" (fp_test_arr ∷ [])
    ∷ wrapper "load512wrapper" "load512" (fp_test_arr ∷ [])
    ∷ wrapper "spacedload256wrapper" "spacedload128" (int_test_arr ∷ [])
    ∷ wrapper "store128wrapper" "store128" (int_test_arr ∷ int_sink_arr ∷ [])
    ∷ wrapper "store256wrapper" "store256" (fp_test_arr ∷ fp_sink_arr ∷ [])
    ∷ wrapper "store512wrapper" "store512" (fp_test_arr ∷ fp_sink_arr ∷ [])
    ∷ wrapper "mixfmaandmem256wrapper" "mixfmaandmem256" (fp_test_arr ∷ [])
    ∷ wrapper "mixfmaaddmem256wrapper" "mixfmaaddmem256" (fp_test_arr ∷ [])
    ∷ []
