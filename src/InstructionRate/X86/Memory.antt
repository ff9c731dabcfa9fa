-- ===== src/InstructionRate/X86/Memory.antt =====
-- InstructionRate/x86instructionrate.c, main: the tests of loads, stores and fusion.
use u_arch_test.Prelude.{List, [], ◌∷◌}
use u_arch_test.InstructionRate.X86.Row.{Test, iterations, rate}

abbrev pub load128_tests : List Test
load128_tests =
    rate "load128" 7 "128-bit loads per clk" iterations "load128wrapper"
    ∷ rate "spacedload128" 13 "128-bit loads (spaced) per clk" iterations "spacedload128wrapper"
    ∷ []

abbrev pub load256_tests : List Test
load256_tests = rate "load256" 7 "256-bit loads per clk" iterations "load256wrapper" ∷ []

abbrev pub store128_tests : List Test
store128_tests =
    rate "spacedstorescalar" 13 "scalar stores (spaced) per clk" iterations
      "spacedstorescalarwrapper"
    ∷ rate "store128" 7 "128-bit stores per clk" iterations "store128wrapper"
    ∷ []

abbrev pub store256_tests : List Test
store256_tests = rate "store256" 7 "256-bit stores per clk" iterations "store256wrapper" ∷ []

abbrev pub mixaddmul_tests : List Test
mixaddmul_tests =
    rate "mixaddmul128int" 15 "1:1 mixed 128-bit vec add/mul per clk" iterations "mixaddmul128int"
    ∷ []

abbrev pub fusion_tests : List Test
fusion_tests =
    rate "testfusion" 10 "test+jnz" iterations "testfusion"
    ∷ rate "cmpfusion" 9 "cmp+jnz" iterations "cmpfusion"
    ∷ rate "subfusion" 9 "sub+jnz" iterations "subfusion"
    ∷ rate "nopfusion" 9 "nop+jnz" iterations "nopfusion"
    ∷ []
