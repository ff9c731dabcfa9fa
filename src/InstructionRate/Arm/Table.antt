-- ===== src/InstructionRate/Arm/Table.antt =====
-- InstructionRate/arminstructionrate.c, main: its tests, in order.
use u_arch_test.Prelude.{List, [], ◌∷◌, true, false}
use u_arch_test.InstructionRate.Measure.{Print, print, iterations, latency_iterations}

abbrev pub arm_tests : List Print
arm_tests =
    print "Adds per clk" latency_iterations false "addtest"
    ∷ print "Nops per clk" latency_iterations false "noptest"
    ∷ print "Indepdent movs per clk" latency_iterations false "indepmovtest"
    ∷ print "Dependent movs per clk" latency_iterations false "depmovtest"
    ∷ print "eor -> 0 per clk" latency_iterations false "xorzerotest"
    ∷ print "mov -> 0 per clk" latency_iterations false "movzerotest"
    ∷ print "sub -> 0 per clk" latency_iterations false "subzerotest"
    ∷ print "Not taken jmps per clk" latency_iterations false "jmptest"
    ∷ print "Jump fusion test" latency_iterations false "fusejmptest"
    ∷ print "1:1 mixed not taken jmps / muls per clk" latency_iterations false "mixmuljmptest"
    ∷ print "1:2 mixed not taken jmps / muls per clk" latency_iterations false "mixmuljmptest21"
    ∷ print "1:1 mixed not taken jmps / adds per clk" latency_iterations false "mixaddjmptest"
    ∷ print "1:2 mixed not taken jmps / adds per clk" latency_iterations false "mixaddjmp21test"
    ∷ print "1:1 mixed add/mul per clk" latency_iterations false "addmultest"
    ∷ print "2:1 mixed add/mul per clk" latency_iterations false "addmul21test"
    ∷ print "ror per clk" latency_iterations false "rortest"
    ∷ print "1:1 mixed mul/ror per clk" latency_iterations false "mixmulrortest"
    ∷ print "32-bit mul per clk" latency_iterations false "mul32test"
    ∷ print "64-bit mul per clk" latency_iterations false "mul32test"
    ∷ print "scalar fp32 add per clk" latency_iterations false "faddwrapper"
    ∷ print "128-bit vec int32 add per clk" latency_iterations false "vecadd128wrapper"
    ∷ print "128-bit vec int32 multiply per clk" latency_iterations false "vecmul128wrapper"
    ∷ print "128-bit vec int32 mixed multiply and add per clk" latency_iterations false
        "mixvecaddmul128wrapper"
    ∷ print "128-bit vec fp32 add per clk" latency_iterations false "vecfadd128wrapper"
    ∷ print "128-bit vec fp32 multiply per clk" latency_iterations false "vecfmul128wrapper"
    ∷ print "128-bit vec fp32 mixed multiply and add per clk" latency_iterations false
        "mixvecfaddfmul128wrapper"
    ∷ print "2:1 mixed scalar adds and 128-bit vec int32 add per clk" latency_iterations false
        "mixaddvecadd128wrapper"
    ∷ print "3:1 mixed scalar adds and 128-bit vec int32 add per clk" latency_iterations false
        "mix3to1addvecadd128wrapper"
    ∷ print "1:1 mixed scalar adds and 128-bit vec int32 add per clk" latency_iterations false
        "mix1to1addvecadd128wrapper"
    ∷ print "1:1 mixed scalar 32-bit multiply and 128-bit vec int32 multiply per clk"
        latency_iterations false "mixmulvecmulwrapper"
    ∷ print "1:1 mixed 128-bit vec fp32 multiply and 128-bit vec int32 multiply per clk"
        latency_iterations false "mixvecmulfmulwrapper"
    ∷ print "1:1 mixed 128-bit vec fp32 add and 128-bit vec int32 add per clk" latency_iterations
        false "mixvecaddfaddwrapper"
    ∷ print "1:2 mixed not taken jumps and 128-bit vec int32 add per clk" latency_iterations false
        "mixjmpvecaddwrapper"
    ∷ print "1:1 mixed not taken jumps and 128-bit vec int32 mul per clk" latency_iterations false
        "mixjmpvecmulwrapper"
    ∷ print "128-bit vec loads per clk" latency_iterations false "vecloadwrapper"
    ∷ print "128-bit vec stores per clk" latency_iterations false "vecstorewrapper"
    ∷ print "64-bit loads per clk" latency_iterations false "loadwrapper"
    ∷ print "1:1 mixed 64-bit loads/stores per clk" latency_iterations false "mixloadstorewrapper"
    ∷ print "2:1 mixed 64-bit loads/stores per clk" latency_iterations false "mix21loadstorewrapper"
    ∷ print "64-bit multiply latency" iterations true "latmul64test"
    ∷ print "128-bit vec int32 add latency" iterations true "latvecadd128wrapper"
    ∷ print "128-bit vec int32 mul latency" iterations true "latvecmul128wrapper"
    ∷ print "Scalar FADD Latency" latency_iterations true "latfaddwrapper"
    ∷ print "128-bit vector FADD latency" iterations true "latvecfadd128wrapper"
    ∷ print "128-bit vector FMUL latency" iterations true "latvecfmul128wrapper"
    ∷ print "128-bit vector FMA per clk" latency_iterations false "vecfma128wrapper"
    ∷ print "128-bit vector FMA latency" iterations true "latvecfma128wrapper"
    ∷ print "Scalar FMA per clk" latency_iterations false "scalarfmawrapper"
    ∷ print "Scalar FMA latency" latency_iterations true "latscalarfmawrapper"
    ∷ print "1:1 mixed 128-bit vector FMA/FADD per clk" latency_iterations false
        "mixvecfaddfma128wrapper"
    ∷ print "1:1 mixed 128-bit vector FMA/FMUL per clk" latency_iterations false
        "mixvecfmulfma128wrapper"
    ∷ []
