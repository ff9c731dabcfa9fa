-- ===== src/InstructionRate/X86/Vector.antt =====
-- InstructionRate/x86instructionrate.c, main: the tests of AVX and SSE arithmetic.
use u_arch_test.Prelude.{List, [], ◌∷◌}
use u_arch_test.InstructionRate.X86.Row.{Test, iterations, latency, latency_iterations, rate}

abbrev pub avx2_tests : List Test
avx2_tests =
    rate "avx256int" 9 "256-bit avx integer add per clk" latency_iterations "add256int"
    ∷ rate "mixavx256int" 12 "2:1 scalar add/256-bit avx integer add per clk" latency_iterations
        "mixadd256int"
    ∷ rate "mix11avx256int" 14 "1:1 scalar add/256-bit avx integer add per clk" latency_iterations
        "mixadd256int11"
    ∷ rate "mixavx256fpint" 14 "1:1 256-bit avx int add/avx fadd per clk" latency_iterations
        "mixadd256fpint"
    ∷ rate "fadd256" 6 "256-bit FADD per clk" iterations "add256fp"
    ∷ rate "fmul256" 6 "256-bit FMUL per clk" iterations "mul256fp"
    ∷ []

abbrev pub mix256fp_tests : List Test
mix256fp_tests =
    rate "mix256fp" 8 "1:1 256-bit avx fp mul/add per clk" latency_iterations "mix256fp" ∷ []

abbrev pub avx2_latency_tests : List Test
avx2_latency_tests =
    latency "latadd256int" 12 "256-bit avx2 integer add latency" latency_iterations "latadd256int"
    ∷ latency "latmul256int" 12 "256-bit avx2 integer multiply latency" iterations "latmul256int"
    ∷ []

abbrev pub sse_latency_tests : List Test
sse_latency_tests =
    latency "latadd128int" 12 "128-bit sse integer add latency" latency_iterations "latadd128int"
    ∷ latency "latmul128int" 12 "128-bit sse integer multiply latency" iterations "latmul128int"
    ∷ []

abbrev pub avx_latency_tests : List Test
avx_latency_tests =
    latency "latadd256fp" 11 "256-bit avx fadd latency" iterations "latadd256fp"
    ∷ latency "latmul256fp" 11 "256-bit avx fmul latency" iterations "latmul256fp"
    ∷ []

abbrev pub sse_tests : List Test
sse_tests =
    latency "latadd128fp" 11 "128-bit sse fadd latency" iterations "latadd128fp"
    ∷ latency "latmul128fp" 11 "128-bit sse fmul latency" iterations "latmul128fp"
    ∷ rate "add128fp" 8 "128-bit sse fadd per clk" latency_iterations "add128fp"
    ∷ rate "mul128fp" 8 "128-bit sse fmul per clk" latency_iterations "mul128fp"
    ∷ rate "add128int" 9 "128-bit sse int add per clk" latency_iterations "add128int"
    ∷ rate "mul128int" 9 "128-bit sse int mul per clk" latency_iterations "mul128int"
    ∷ []
