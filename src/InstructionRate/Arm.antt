-- ===== src/InstructionRate/Arm.antt =====
-- InstructionRate/arminstructionrate.c: main, which runs every test.
pub mod Wrappers
pub mod Header
pub mod Table
use u_arch_test.Prelude.{ℕ, List}
use u_arch_test.Timing.{Floats, Timeval}
use u_arch_test.InstructionRate.Measure.{calibrated}
use u_arch_test.InstructionRate.Arm.Table.{arm_tests}
use Prim.Native.String.{String}

pub main : (fl : Floats) (readings : ℕ → Timeval × Timeval) → List (String × fl.Real)
main fl readings = calibrated fl readings 1 arm_tests
