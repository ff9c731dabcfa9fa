-- ===== src/InstructionRate/X86/Avx512.antt =====
-- InstructionRate/x86instructionrate.c, main: the tests of the AVX-512 block.
use u_arch_test.Prelude.{List, [], ◌∷◌}
use u_arch_test.InstructionRate.X86.Row.{
  Test, iterations, iterations_22, latency, latency_iterations, rate,
}

abbrev pub avx512_tests : List Test
avx512_tests =
    rate "fma512" 6 "512-bit FMA per clk" iterations "fma512"
    ∷ latency "latfma512" 9 "512-bit FMA latency" iterations "latfma512"
    ∷ rate "mixfma256fma512" 15 "1:1 256-bit/512-bit FMA per clk" iterations "mixfma256fma512"
    ∷ rate "mix21fma256fma512" 17 "2:1 256-bit/512-bit FMA per clk" iterations "mix21fma256fma512"
    ∷ rate "nemesfpumix21" 13 "1:2 512b FMA:FADD per clk (nemes)" iterations_22 "nemesfpu512mix21"
    ∷ rate "add512int" 9 "512-bit int add per clk" iterations "add512int"
    ∷ latency "latadd512int" 12 "512-bit int add latency" latency_iterations "latadd256int"
    ∷ rate "mul512int" 9 "512-bit 32-bit int mul per clk" iterations "mul512int"
    ∷ rate "muldq512int" 9 "512-bit 32->64-bit int mul per clk" iterations "muldq512int"
    ∷ latency "latmulq512int" 13 "512-bit 64-bit int mul latency" latency_iterations "latmulq512int"
    ∷ latency "latmul512int" 12 "512-bit 32-bit int mul latency" latency_iterations "latmul512int"
    ∷ latency "latmuldq512int" 13 "512-bit 32->64-bit int mul latency" latency_iterations
        "latmuldq512int"
    ∷ rate "mixfmaadd512" 11 "1:2 512b PADDQ:FMA per clk" iterations_22 "mixfmaadd512"
    ∷ rate "mixfma512add256" 11 "1:2 256b PADDQ : 512b FMA per clk" iterations_22 "mixfma512add256"
    ∷ rate "load512" 7 "512-bit loads per clk" iterations "load512wrapper"
    ∷ rate "store512" 7 "512-bit stores per clk" iterations "store512wrapper"
    ∷ rate "aesenc128" 9 "aesenc per clk" iterations "aesenc128"
    ∷ rate "aesdec128" 9 "aesdec per clk" iterations "aesdec128"
    ∷ rate "aesencadd128" 12 "1:3 aesenc+paddd per clk" iterations "aesencadd128"
    ∷ rate "aesencfma128" 12 "1:2 aesenc+fma per clk" iterations "aesencfma128"
    ∷ rate "aesencmul128" 12 "1:2 aesenc+pmullw per clk" iterations "aesencmul128"
    ∷ rate "aesencmul128" 12 "1:2 aesenc+addps per clk" iterations "aesencfadd128"
    ∷ []
