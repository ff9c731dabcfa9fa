-- ===== src/InstructionRate/Arm/Wrappers.antt =====
-- InstructionRate/arminstructionrate.c: the functions that pass a test its arrays.
use u_arch_test.Prelude.{List, [], ◌∷◌}
use u_arch_test.InstructionRate.Measure.{Wrapper, wrapper, int_test_arr, fp_test_arr, sink_arr}

abbrev pub arm_wrappers : List Wrapper
arm_wrappers =
    wrapper "vecadd128wrapper" "vecadd128test" (int_test_arr ∷ [])
    ∷ wrapper "vecmul128wrapper" "vecmul128test" (int_test_arr ∷ [])
    ∷ wrapper "latvecadd128wrapper" "latvecadd128test" (int_test_arr ∷ [])
    ∷ wrapper "latvecmul128wrapper" "latvecmul128test" (int_test_arr ∷ [])
    ∷ wrapper "mixvecaddmul128wrapper" "mixvecaddmul128test" (int_test_arr ∷ [])
    ∷ wrapper "faddwrapper" "faddtest" (fp_test_arr ∷ [])
    ∷ wrapper "latfaddwrapper" "latfaddtest" (fp_test_arr ∷ [])
    ∷ wrapper "latvecfadd128wrapper" "latvecfadd128test" (fp_test_arr ∷ [])
    ∷ wrapper "latvecfmul128wrapper" "latvecfmul128test" (fp_test_arr ∷ [])
    ∷ wrapper "vecfadd128wrapper" "vecfadd128test" (fp_test_arr ∷ [])
    ∷ wrapper "vecfmul128wrapper" "vecfmul128test" (fp_test_arr ∷ [])
    ∷ wrapper "mixvecfaddfmul128wrapper" "mixvecfaddfmul128test" (fp_test_arr ∷ [])
    ∷ wrapper "mixaddvecadd128wrapper" "mixaddvecadd128test" (int_test_arr ∷ [])
    ∷ wrapper "mix3to1addvecadd128wrapper" "mix3to1addvecadd128test" (int_test_arr ∷ [])
    ∷ wrapper "mix1to1addvecadd128wrapper" "mix1to1addvecadd128test" (int_test_arr ∷ [])
    ∷ wrapper "mixmulvecmulwrapper" "mixmulvecmultest" (int_test_arr ∷ [])
    ∷ wrapper "mixvecmulfmulwrapper" "mixvecmulfmultest" (fp_test_arr ∷ int_test_arr ∷ [])
    ∷ wrapper "mixvecaddfaddwrapper" "mixvecaddfaddtest" (fp_test_arr ∷ int_test_arr ∷ [])
    ∷ wrapper "mixjmpvecaddwrapper" "mixjmpvecaddtest" (int_test_arr ∷ [])
    ∷ wrapper "mixjmpvecmulwrapper" "mixjmpvecmultest" (int_test_arr ∷ [])
    ∷ wrapper "vecloadwrapper" "vecloadtest" (int_test_arr ∷ [])
    ∷ wrapper "vecstorewrapper" "vecstoretest" (int_test_arr ∷ sink_arr ∷ [])
    ∷ wrapper "loadwrapper" "loadtest" (int_test_arr ∷ [])
    ∷ wrapper "mixloadstorewrapper" "mixloadstoretest" (int_test_arr ∷ sink_arr ∷ [])
    ∷ wrapper "mix21loadstorewrapper" "mix21loadstoretest" (int_test_arr ∷ sink_arr ∷ [])
    ∷ wrapper "vecfma128wrapper" "vecfma128test" (fp_test_arr ∷ [])
    ∷ wrapper "scalarfmawrapper" "scalarfmatest" (fp_test_arr ∷ [])
    ∷ wrapper "latscalarfmawrapper" "latscalarfmatest" (fp_test_arr ∷ [])
    ∷ wrapper "latvecfma128wrapper" "latvecfma128test" (fp_test_arr ∷ [])
    ∷ wrapper "mixvecfmulfma128wrapper" "mixvecfmulfma128test" (fp_test_arr ∷ [])
    ∷ wrapper "mixvecfaddfma128wrapper" "mixvecfaddfma128test" (fp_test_arr ∷ [])
    ∷ []
