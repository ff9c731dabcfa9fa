-- ===== src/InstructionRate/X86/Scalar.antt =====
-- InstructionRate/x86instructionrate.c, main: the tests of scalar instructions.
use u_arch_test.Prelude.{List, [], ◌∷◌}
use u_arch_test.InstructionRate.X86.Row.{Test, latency_iterations, rate}

abbrev pub scalar_tests : List Test
scalar_tests =
    rate "1bnop" 5 "1-byte nops per clk" latency_iterations "noptest1b"
    ∷ rate "2bnop" 5 "2-byte nops per clk" latency_iterations "noptest"
    ∷ rate "add" 3 "Adds per clk" latency_iterations "addtest"
    ∷ rate "addnop" 7 "1:4 nops/adds per clk" latency_iterations "addnoptest"
    ∷ rate "addmov" 7 "1:4 movs/adds per clk" latency_iterations "addnoptest"
    ∷ rate "depmov" 6 "Dependent movs per clk" latency_iterations "depmovtest"
    ∷ rate "indepmov" 8 "Independent movs per clk" latency_iterations "indepmovtest"
    ∷ rate "xorzero" 7 "xor -> 0 per clk" latency_iterations "xorzerotest"
    ∷ rate "movzero" 7 "mov -> 0 per clk" latency_iterations "movzerotest"
    ∷ rate "subzero" 7 "sub -> 0 per clk" latency_iterations "subzerotest"
    ∷ rate "depinc" 6 "dep inc per clk" latency_iterations "depinctest"
    ∷ rate "depdec" 6 "dep dec per clk" latency_iterations "depdectest"
    ∷ rate "depdec" 6 "dep add immediate per clk" latency_iterations "depaddimmtest"
    ∷ rate "clkmov" 6 "dep add + mov pair per clk" latency_iterations "clkmovtest"
    ∷ rate "vecdepmov" 9 "Dependent vec movs per clk" latency_iterations "vecdepmovtest"
    ∷ rate "vecindepmov" 12 "Independent vec movs per clk" latency_iterations "vecindepmovtest"
    ∷ rate "vecxorzero" 10 "xor xmm -> 0 per clk" latency_iterations "vecxorzerotest"
    ∷ rate "vecsubzero" 10 "sub xmm -> 0 per clk" latency_iterations "vecsubzerotest"
    ∷ rate "miximuladd" 10 "4:1 adds/imul per clk" latency_iterations "addmultest"
    ∷ rate "jmpmul" 6 "1:1 mul/jmp per clk" latency_iterations "jmpmultest"
    ∷ rate "jmp" 3 "taken jmp per clk" latency_iterations "jmptest"
    ∷ rate "ntjmp" 5 "nt jmp per clk" latency_iterations "ntjmptest"
    ∷ []

abbrev pub bmi2_tests : List Test
bmi2_tests =
    rate "pdep" 4 "pdep per clk" latency_iterations "pdeptest"
    ∷ rate "pext" 4 "pext per clk" latency_iterations "pexttest"
    ∷ rate "pdepmul" 7 "1:1 pdep/mul per clk" latency_iterations "pdepmultest"
    ∷ []

abbrev pub shift_tests : List Test
shift_tests =
    rate "shl" 3 "shl r,1 per clk" latency_iterations "shltest"
    ∷ rate "ror" 3 "ror r,1 per clk" latency_iterations "rortest"
    ∷ rate "mixrorshl" 9 "1:1 shl/ror r,1 per clk" latency_iterations "mixrorshltest"
    ∷ rate "mixrormul" 3 "1:1 ror/mul per clk" latency_iterations "mixrormultest"
    ∷ rate "bts" 3 "bts per clk" latency_iterations "btstest"
    ∷ rate "mixmulbts" 9 "1:1 bts/mul per clk" latency_iterations "btsmultest"
    ∷ rate "mixrorbts" 9 "1:1 bts/ror per clk" latency_iterations "rorbtstest"
    ∷ rate "lea" 3 "lea r+r*8 per clk" latency_iterations "leatest"
    ∷ rate "mixmullea" 9 "1:1 lea r+r*8/mul per clk" latency_iterations "leamultest"
    ∷ []
