-- ===== src/InstructionRate/Typing/Laws.antt =====
-- Every call of measureFunction in both mains of InstructionRate is well typed.
use u_arch_test.Prelude.{◌≡◌, refl, Bool, true, List, Option, All, All-imp, All-all, all}
use u_arch_test.InstructionRate.Measure.{Print, resolved}
use u_arch_test.InstructionRate.Typing.{declared, is_listed, well_typed}
use u_arch_test.InstructionRate.X86.Row.{Test}
use u_arch_test.InstructionRate.X86.Wrappers.{x86_wrappers}
use u_arch_test.InstructionRate.X86.Header.{x86_declarations, x86_wrapper_names}
use u_arch_test.InstructionRate.X86.{Features, Guard, blocks, run_blocks}
use u_arch_test.InstructionRate.X86.Laws.{run_blocks-All}
use u_arch_test.InstructionRate.Arm.Table.{arm_tests}
use u_arch_test.InstructionRate.Arm.Wrappers.{arm_wrappers}
use u_arch_test.InstructionRate.Arm.Header.{arm_declarations, arm_wrapper_names}
use Prim.Native.String.{String}

abbrev pub well_typed_x86 : Test → Bool
well_typed_x86 t = well_typed x86_declarations x86_wrapper_names x86_wrappers t.line.testfunc

abbrev pub well_typed_arm : Print → Bool
well_typed_arm p = well_typed arm_declarations arm_wrapper_names arm_wrappers p.testfunc

abbrev block_typed : Guard × List Test → Bool
block_typed (g, ts) = all well_typed_x86 ts

blocks_fit : all block_typed blocks ≡ true
unfolding well_typed declared is_listed resolved
blocks_fit = refl

arm_tests_fit : all well_typed_arm arm_tests ≡ true
unfolding well_typed declared is_listed resolved
arm_tests_fit = refl

blocks_all_fit :
    (bs : List (Guard × List Test))
    → all block_typed bs ≡ true
    → All (λ (b : Guard × List Test). All (λ t. well_typed_x86 t ≡ true) b.1) bs
blocks_all_fit bs h =
    All-imp (λ b. block_typed b ≡ true) (λ b. All (λ t. well_typed_x86 t ≡ true) b.1) bs
      (λ b e. All-all well_typed_x86 b.1 e) (All-all block_typed bs h)

-- Every call of measureFunction that main of x86instructionrate.c or of arminstructionrate.c makes
-- for a line of its output, whatever the processor's features and the argument, passes a function
-- of the type that measureFunction asks for: an assembly function that the header declares with no
-- parameter but iterations, or a wrapper that the header declares and that passes on arrays with
-- the element types, in the order, that the header declares for the assembly function it calls.
pub calls_fit :
    (f : Features) (argument : Option String)
    → All (λ t. well_typed_x86 t ≡ true) (run_blocks f argument blocks)
      × All (λ p. well_typed_arm p ≡ true) arm_tests
calls_fit f argument = (
  run_blocks-All (λ t. well_typed_x86 t ≡ true) argument f blocks
      (blocks_all_fit blocks blocks_fit),
  All-all well_typed_arm arm_tests arm_tests_fit,
)
