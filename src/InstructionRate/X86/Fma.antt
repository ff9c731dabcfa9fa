-- ===== src/InstructionRate/X86/Fma.antt =====
-- InstructionRate/x86instructionrate.c, main: the tests of fused multiply-add and of imul.
use u_arch_test.Prelude.{List, [], ◌∷◌}
use u_arch_test.InstructionRate.X86.Row.{Test, iterations, iterations_22, latency, rate}

abbrev pub fma_tests : List Test
fma_tests =
    rate "fma256" 6 "256-bit FMA per clk" iterations "fma256"
    ∷ rate "fma128" 6 "128-bit FMA per clk" iterations "fma128"
    ∷ latency "latfma256" 9 "256-bit FMA latency" iterations "latfma256"
    ∷ latency "latfma128" 9 "128-bit FMA latency" iterations "latfma128"
    ∷ rate "mixfmafadd256" 12 "1:2 256b FMA:FADD per clk" iterations_22 "mixfmafadd256"
    ∷ rate "mixfmaadd256" 11 "2:1 256b FMA:PADDQ per clk" iterations_22 "mixfmaadd256"
    ∷ rate "mixfmaandmem256" 14 "2:1 256b FMA:PADDQ load-op per clk" iterations_22
        "mixfmaaddmem256wrapper"
    ∷ rate "mixfmaand256" 11 "2:1 256b FMA:PAND per clk" iterations_22 "mixfmaand256"
    ∷ rate "mixfmaandmem256" 14 "2:1 256b FMA:PAND load-op per clk" iterations_22
        "mixfmaandmem256wrapper"
    ∷ rate "nemesfpumix21" 13 "1:2 256b FMA:FADD per clk (nemes)" iterations_22 "nemesfpumix21"
    ∷ rate "mix256faddintadd" 15 "1:2 256b FMA:PADD per clk" iterations "mix256faddintadd"
    ∷ []

abbrev pub fma4_tests : List Test
fma4_tests =
    rate "fma4_256" 8 "256-bit FMA4 per clk" iterations "fma4_256"
    ∷ rate "fma4_256" 8 "128-bit FMA4 per clk" iterations "fma4_128"
    ∷ []

abbrev pub imul_tests : List Test
imul_tests =
    latency "latmul16" 8 "16-bit imul latency" iterations "latmul16"
    ∷ latency "latmul64" 8 "64-bit imul latency" iterations "latmul64"
    ∷ rate "mul16" 5 "16-bit imul per clk" iterations "mul16"
    ∷ rate "mul64" 5 "64-bit imul per clk" iterations "mul64"
    ∷ rate "mixmul16mul64" 5 "1:1 mixed 16-bit/64-bit imul per clk" iterations "mixmul16mul64"
    ∷ rate "mix21mul16mul64" 5 "2:1 mixed 16-bit/64-bit imul per clk" iterations "mixmul16mul64_21"
    ∷ []
