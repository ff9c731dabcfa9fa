-- ===== src/InstructionRate/Arm/Header.antt =====
-- InstructionRate/arminstructionrate.h: the assembly functions and the wrappers that it declares.
use u_arch_test.Prelude.{List, [], ◌∷◌}
use u_arch_test.InstructionRate.Typing.{Declaration, declares, int_arr, float_arr}
use Prim.Native.String.{String}

abbrev pub arm_declarations : List Declaration
arm_declarations =
    declares "noptest" []
    ∷ declares "clktest" []
    ∷ declares "addtest" []
    ∷ declares "addmultest" []
    ∷ declares "addmul21test" []
    ∷ declares "mul32test" []
    ∷ declares "mul64test" []
    ∷ declares "latmul64test" []
    ∷ declares "jmptest" []
    ∷ declares "fusejmptest" []
    ∷ declares "mixmuljmptest" []
    ∷ declares "mixmuljmptest21" []
    ∷ declares "mixaddjmptest" []
    ∷ declares "mixaddjmp21test" []
    ∷ declares "rortest" []
    ∷ declares "mixmulrortest" []
    ∷ declares "vecadd128test" (int_arr ∷ [])
    ∷ declares "latvecadd128test" (int_arr ∷ [])
    ∷ declares "vecmul128test" (int_arr ∷ [])
    ∷ declares "latvecmul128test" (int_arr ∷ [])
    ∷ declares "mixvecaddmul128test" (int_arr ∷ [])
    ∷ declares "faddtest" (float_arr ∷ [])
    ∷ declares "latfaddtest" (float_arr ∷ [])
    ∷ declares "vecfadd128test" (float_arr ∷ [])
    ∷ declares "vecfmul128test" (float_arr ∷ [])
    ∷ declares "latvecfadd128test" (float_arr ∷ [])
    ∷ declares "latvecfmul128test" (float_arr ∷ [])
    ∷ declares "mixvecfaddfmul128test" (float_arr ∷ [])
    ∷ declares "vecfma128test" (float_arr ∷ [])
    ∷ declares "scalarfmatest" (float_arr ∷ [])
    ∷ declares "latvecfma128test" (float_arr ∷ [])
    ∷ declares "latscalarfmatest" (float_arr ∷ [])
    ∷ declares "mixvecfaddfma128test" (float_arr ∷ [])
    ∷ declares "mixvecfmulfma128test" (float_arr ∷ [])
    ∷ declares "mixaddvecadd128test" (int_arr ∷ [])
    ∷ declares "mix3to1addvecadd128test" (int_arr ∷ [])
    ∷ declares "mix1to1addvecadd128test" (int_arr ∷ [])
    ∷ declares "mixmulvecmultest" (int_arr ∷ [])
    ∷ declares "mixvecmulfmultest" (float_arr ∷ int_arr ∷ [])
    ∷ declares "mixvecaddfaddtest" (float_arr ∷ int_arr ∷ [])
    ∷ declares "mixjmpvecaddtest" (int_arr ∷ [])
    ∷ declares "mixjmpvecmultest" (int_arr ∷ [])
    ∷ declares "loadtest" (int_arr ∷ [])
    ∷ declares "mixloadstoretest" (int_arr ∷ int_arr ∷ [])
    ∷ declares "mix21loadstoretest" (int_arr ∷ int_arr ∷ [])
    ∷ declares "vecloadtest" (int_arr ∷ [])
    ∷ declares "vecstoretest" (int_arr ∷ int_arr ∷ [])
    ∷ declares "indepmovtest" []
    ∷ declares "depmovtest" []
    ∷ declares "xorzerotest" []
    ∷ declares "movzerotest" []
    ∷ declares "subzerotest" []
    ∷ []

-- The wrappers, of type uint64_t (uint64_t).
abbrev pub arm_wrapper_names : List String
arm_wrapper_names =
    "vecadd128wrapper" ∷ "latvecadd128wrapper" ∷ "vecmul128wrapper" ∷ "latvecmul128wrapper"
    ∷ "mixvecaddmul128wrapper" ∷ "faddwrapper" ∷ "latfaddwrapper" ∷ "vecfadd128wrapper"
    ∷ "latvecfadd128wrapper" ∷ "vecfmul128wrapper" ∷ "latvecfmul128wrapper"
    ∷ "mixvecfaddfmul128wrapper" ∷ "mixaddvecadd128wrapper" ∷ "mix3to1addvecadd128wrapper"
    ∷ "mix1to1addvecadd128wrapper" ∷ "mixmulvecmulwrapper" ∷ "mixvecmulfmulwrapper"
    ∷ "mixvecaddfaddwrapper" ∷ "mixjmpvecaddwrapper" ∷ "mixjmpvecmulwrapper" ∷ "vecloadwrapper"
    ∷ "loadwrapper" ∷ "vecstorewrapper" ∷ "mixloadstorewrapper" ∷ "mix21loadstorewrapper"
    ∷ "vecfma128wrapper" ∷ "scalarfmawrapper" ∷ "latscalarfmawrapper" ∷ "mixvecfaddfma128wrapper"
    ∷ "mixvecfmulfma128wrapper" ∷ "latvecfma128wrapper" ∷ []
