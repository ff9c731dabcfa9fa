-- ===== src/InstructionRate/X86/Tests.antt =====
-- Examples of the tests that InstructionRate/x86instructionrate.c selects.
use u_arch_test.Prelude.{◌≡◌, refl, true, false, List, [], ◌∷◌, none, some, map}
use u_arch_test.InstructionRate.X86.Row.{Test, strncmp_eq, argument_check}
use u_arch_test.InstructionRate.X86.{Features, holds, blocks, run_block, run_blocks}
use u_arch_test.InstructionRate.X86.Laws.{AllSatisfied, run_blocks-satisfied}
use Prim.Native.String.{String}

-- Everything but FMA4, and SSE only.
abbrev skylake : Features
skylake = record { avx = true; avx2 = true; bmi2 = true; avx512 = true; fma = true; fma4 = false }

abbrev nehalem : Features
nehalem = record {
  avx = false;
  avx2 = false;
  bmi2 = false;
  avx512 = false;
  fma = false;
  fma4 = false;
}

abbrev functions : List Test → List String
functions ts = map (λ (t : Test). t.line.testfunc) ts

-- One name can select a second test with the wrong function, and three letters are enough for
-- mixrormul.
depdec_run :
    functions (run_blocks skylake (some "depdec") blocks) ≡ "depdectest" ∷ "depaddimmtest" ∷ []
unfolding run_block run_blocks holds argument_check strncmp_eq
depdec_run = refl

addmov_run : functions (run_blocks nehalem (some "addmov") blocks) ≡ "addtest" ∷ "addnoptest" ∷ []
unfolding run_block run_blocks holds argument_check strncmp_eq
addmov_run = refl

run_blocks-satisfied_example : AllSatisfied nehalem (run_blocks nehalem none blocks)
run_blocks-satisfied_example = run_blocks-satisfied nehalem none
