-- ===== src/InstructionRate/X86/Header.antt =====
-- InstructionRate/x86instructionrate.h: the assembly functions and the wrappers that it declares.
use u_arch_test.Prelude.{List, [], ◌∷◌}
use u_arch_test.InstructionRate.Typing.{Declaration, declares, int_arr, float_arr}
use Prim.Native.String.{String}

abbrev pub x86_declarations : List Declaration
x86_declarations =
    declares "noptest" []
    ∷ declares "noptest1b" []
    ∷ declares "clktest" []
    ∷ declares "clkmovtest" []
    ∷ declares "addtest" []
    ∷ declares "addnoptest" []
    ∷ declares "addmovtest" []
    ∷ declares "leatest" []
    ∷ declares "leamultest" []
    ∷ declares "rortest" []
    ∷ declares "shltest" []
    ∷ declares "rorbtstest" []
    ∷ declares "mixrormultest" []
    ∷ declares "mixrorshltest" []
    ∷ declares "btstest" []
    ∷ declares "btsmultest" []
    ∷ declares "addmultest" []
    ∷ declares "jmpmultest" []
    ∷ declares "jmptest" []
    ∷ declares "ntjmptest" []
    ∷ declares "mixadd256int" []
    ∷ declares "mixadd256int11" []
    ∷ declares "mixadd256fpint" []
    ∷ declares "mix256fp" []
    ∷ declares "mix256fp11" []
    ∷ declares "latadd512int" []
    ∷ declares "latadd256int" []
    ∷ declares "latadd128int" []
    ∷ declares "latadd256fp" []
    ∷ declares "latmul128int" []
    ∷ declares "latmul256int" []
    ∷ declares "latmul512int" []
    ∷ declares "latmulq512int" []
    ∷ declares "latmuldq512int" []
    ∷ declares "latmul256fp" []
    ∷ declares "latadd128fp" []
    ∷ declares "latmul128fp" []
    ∷ declares "latfma512" []
    ∷ declares "latfma256" []
    ∷ declares "latfma128" []
    ∷ declares "add128int" []
    ∷ declares "add256int" []
    ∷ declares "add512int" []
    ∷ declares "mul512int" []
    ∷ declares "muldq512int" []
    ∷ declares "mul128int" []
    ∷ declares "add128fp" []
    ∷ declares "mul128fp" []
    ∷ declares "fma512" []
    ∷ declares "mixfma256fma512" []
    ∷ declares "mix21fma256fma512" []
    ∷ declares "fma256" []
    ∷ declares "fma128" []
    ∷ declares "mixfmafadd256" []
    ∷ declares "mixfmaadd256" []
    ∷ declares "mixfmaadd512" []
    ∷ declares "mixfma512add256" []
    ∷ declares "mixfmaand256" []
    ∷ declares "mixfmaandmem256" (float_arr ∷ [])
    ∷ declares "mixfmaaddmem256" (float_arr ∷ [])
    ∷ declares "nemesfpumix21" []
    ∷ declares "nemesfpu512mix21" []
    ∷ declares "mul256fp" []
    ∷ declares "add256fp" []
    ∷ declares "latmul64" []
    ∷ declares "latmul16" []
    ∷ declares "mul16" []
    ∷ declares "mul64" []
    ∷ declares "load128" (int_arr ∷ [])
    ∷ declares "spacedload128" (int_arr ∷ [])
    ∷ declares "load256" (float_arr ∷ [])
    ∷ declares "load512" (float_arr ∷ [])
    ∷ declares "store128" (int_arr ∷ int_arr ∷ [])
    ∷ declares "store256" (float_arr ∷ float_arr ∷ [])
    ∷ declares "store512" (float_arr ∷ float_arr ∷ [])
    ∷ declares "mixaddmul128int" []
    ∷ declares "mixmul16mul64" []
    ∷ declares "mixmul16mul64_21" []
    ∷ declares "pdeptest" []
    ∷ declares "pdepmultest" []
    ∷ declares "pexttest" []
    ∷ declares "indepmovtest" []
    ∷ declares "vecindepmovtest" []
    ∷ declares "depmovtest" []
    ∷ declares "vecdepmovtest" []
    ∷ declares "xorzerotest" []
    ∷ declares "vecxorzerotest" []
    ∷ declares "movzerotest" []
    ∷ declares "subzerotest" []
    ∷ declares "vecsubzerotest" []
    ∷ declares "depinctest" []
    ∷ declares "depdectest" []
    ∷ declares "depaddimmtest" []
    ∷ declares "spacedstorescalar" (int_arr ∷ [])
    ∷ declares "aesenc128" []
    ∷ declares "aesdec128" []
    ∷ declares "aesencfadd128" []
    ∷ declares "aesencadd128" []
    ∷ declares "aesencfma128" []
    ∷ declares "aesencmul128" []
    ∷ declares "mix256faddintadd" []
    ∷ declares "fma4_256" []
    ∷ declares "fma4_128" []
    ∷ declares "testfusion" []
    ∷ declares "cmpfusion" []
    ∷ declares "subfusion" []
    ∷ declares "nopfusion" []
    ∷ []

-- The wrappers, of type uint64_t (uint64_t).
abbrev pub x86_wrapper_names : List String
x86_wrapper_names =
    "load128wrapper" ∷ "spacedload128wrapper" ∷ "spacedstorescalarwrapper" ∷ "load256wrapper"
    ∷ "load512wrapper" ∷ "store128wrapper" ∷ "store256wrapper" ∷ "store512wrapper"
    ∷ "mixfmaandmem256wrapper" ∷ "mixfmaaddmem256wrapper" ∷ []
