-- ===== src/InstructionRate/Measure.antt =====
-- What InstructionRate/x86instructionrate.c and InstructionRate/arminstructionrate.c share:
-- measureFunction, the wrappers that pass a test its arrays, and the lines that main prints.
pub mod Laws
use u_arch_test.Prelude.{ℕ, ◌+◌, ◌*◌, if◌then◌else◌, Bool, true, false, List, [], ◌∷◌, u64}
use u_arch_test.Prelude.Int.{pos}
use u_arch_test.Timing.{Floats, Timeval, elapsed_ms}
use Prim.Native.String.{String}
use text.Mathlib.Text

-- The arrays of the header files.
pub data Array : Type 0 where
  int_test_arr fp_test_arr int_sink_arr fp_sink_arr sink_arr : Array

-- `return target(iterations, arrays...);`
pub record Wrapper : Type 0 where
  pub name : String
  pub target : String
  pub arrays : List Array

abbrev pub wrapper : String → String → List Array → Wrapper
wrapper name target arrays = record { name = name; target = target; arrays = arrays }

-- The assembly function that a test function comes down to, with its arrays.
unfoldable pub resolved : List Wrapper → (testfunc : String) → String × List Array
resolved [] testfunc = (testfunc, [])
resolved (w ∷ ws) testfunc =
    let rest = resolved ws testfunc in
    if Text.◌==◌ w.name testfunc then (w.target, w.arrays) else rest

-- The first argument of measureFunction: `iterations`, `latencyIterations` or `iterations * 22`.
pub data Count : Type 0 where
  iterations latency_iterations iterations_22 : Count

-- One line that main prints: its text, and the call of measureFunction in it. With `inverted` the
-- value is `1 / measureFunction(...)`.
pub record Print : Type 0 where
  pub label : String
  pub count : Count
  pub inverted : Bool
  pub testfunc : String

abbrev pub print : String → Count → Bool → String → Print
print label count inverted testfunc = record {
  label = label;
  count = count;
  inverted = inverted;
  testfunc = testfunc;
}

-- The variables of main, which an argument scales.
unfoldable pub count_of : (scale_factor : ℕ) → Count → ℕ
count_of scale_factor iterations = u64 (1500000000 * scale_factor)
count_of scale_factor latency_iterations = u64 (u64 (1500000000 * 5) * scale_factor)
count_of scale_factor iterations_22 = u64 (u64 (1500000000 * scale_factor) * 22)

module _ (fl : Floats) where
  -- `latency = 1e6 * (float)time_diff_ms / (float)iterations; opsPerNs = 1 / latency;`
  pub ops_per_ns : (n : ℕ) (start end : Timeval) → fl.Real
  ops_per_ns n start end =
      let ms = fl.narrow (fl.real (pos (elapsed_ms start end))) in
      let latency =
        fl.narrow (fl.div (fl.mul (fl.real (pos 1000000)) ms) (fl.narrow (fl.real (pos n)))) in
      fl.narrow (fl.div (fl.real (pos 1)) latency)

  -- `is_clktest` stands for `testfunc == clktest`.
  pub measure_function :
      (is_clktest : Bool) (n : ℕ) (clk_speed : fl.Real) (start end : Timeval) → fl.Real
  measure_function is_clktest n clk_speed start end =
      if is_clktest
      then ops_per_ns n start end
      else fl.narrow (fl.div (ops_per_ns n start end) clk_speed)

  -- `readings k` are the two clock readings of the k-th call of measureFunction.
  module _ (readings : ℕ → Timeval × Timeval) (scale_factor : ℕ) where
    pub print_value : (clk_speed : fl.Real) (k : ℕ) → Print → fl.Real
    print_value clk_speed k p =
        let (start, end) = readings k in
        let r = measure_function false (count_of scale_factor p.count) clk_speed start end in
        if p.inverted then fl.narrow (fl.div (fl.real (pos 1)) r) else r

    pub print_lines : (clk_speed : fl.Real) (k : ℕ) → List Print → List (String × fl.Real)
    print_lines clk_speed k [] = []
    print_lines clk_speed k (p ∷ ps) =
        (p.label, print_value clk_speed k p) ∷ print_lines clk_speed (k + 1) ps

    -- The first call, with clktest, gives the clock speed for all others.
    pub calibrated : List Print → List (String × fl.Real)
    calibrated ps =
        let (start, end) = readings 0 in
        let clk_speed =
          measure_function true (count_of scale_factor latency_iterations) (fl.real (pos 0)) start
            end in
        ("Estimated clock speed", clk_speed) ∷ print_lines clk_speed 1 ps
