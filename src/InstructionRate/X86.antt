-- ===== src/InstructionRate/X86.antt =====
-- InstructionRate/x86instructionrate.c: main.
pub mod Row
pub mod Wrappers
pub mod Header
pub mod Avx512
pub mod Scalar
pub mod Vector
pub mod Fma
pub mod Memory
pub mod Laws
mod Tests
use u_arch_test.Prelude.{ℕ, if◌then◌else◌, Bool, true, ◌&&◌, List, [], ◌∷◌, ◌++◌, Option, map}
use u_arch_test.Timing.{Floats, Timeval}
use u_arch_test.InstructionRate.Measure.{Print, calibrated}
use u_arch_test.InstructionRate.X86.Row.{Test, argument_check}
use u_arch_test.InstructionRate.X86.Avx512.{avx512_tests}
use u_arch_test.InstructionRate.X86.Scalar.{scalar_tests, bmi2_tests, shift_tests}
use u_arch_test.InstructionRate.X86.Vector.{
  avx2_tests, mix256fp_tests, avx2_latency_tests, sse_latency_tests, avx_latency_tests, sse_tests,
}
use u_arch_test.InstructionRate.X86.Fma.{fma_tests, fma4_tests, imul_tests}
use u_arch_test.InstructionRate.X86.Memory.{
  load128_tests, load256_tests, store128_tests, store256_tests, mixaddmul_tests, fusion_tests,
}
use Prim.Native.String.{String}

-- The ISA feature flags.
pub record Features : Type 0 where
  pub avx : Bool
  pub avx2 : Bool
  pub bmi2 : Bool
  pub avx512 : Bool
  pub fma : Bool
  pub fma4 : Bool

-- What a block of tests asks of them.
pub data Guard : Type 0 where
  always if_avx if_avx2 if_bmi2 if_avx512 if_fma_and_avx if_fma4 : Guard

pub holds : Features → Guard → Bool
holds f always = true
holds f if_avx = f.avx
holds f if_avx2 = f.avx2
holds f if_bmi2 = f.bmi2
holds f if_avx512 = f.avx512
holds f if_fma_and_avx = f.fma && f.avx
holds f if_fma4 = f.fma4

-- The blocks of main, in order.
abbrev pub blocks : List (Guard × List Test)
blocks =
    (if_avx512, avx512_tests)
    ∷ (always, scalar_tests)
    ∷ (if_bmi2, bmi2_tests)
    ∷ (always, shift_tests)
    ∷ (if_avx2, avx2_tests)
    ∷ (if_avx, mix256fp_tests)
    ∷ (if_avx2, avx2_latency_tests)
    ∷ (always, sse_latency_tests)
    ∷ (if_avx, avx_latency_tests)
    ∷ (always, sse_tests)
    ∷ (if_fma_and_avx, fma_tests)
    ∷ (if_fma4, fma4_tests)
    ∷ (always, imul_tests)
    ∷ (always, load128_tests)
    ∷ (if_avx, load256_tests)
    ∷ (always, store128_tests)
    ∷ (if_avx, store256_tests)
    ∷ (always, mixaddmul_tests)
    ∷ (always, fusion_tests)
    ∷ []

-- The tests of a block that run.
pub run_block : Option String → List Test → List Test
run_block argument [] = []
run_block argument (t ∷ ts) =
    let rest = run_block argument ts in
    if argument_check argument t.compared t.arg_length then t ∷ rest else rest

pub run_blocks : Features → Option String → List (Guard × List Test) → List Test
run_blocks f argument [] = []
run_blocks f argument ((g, ts) ∷ bs) =
    let rest = run_blocks f argument bs in if holds f g then run_block argument ts ++ rest else rest

-- What main prints. An argument 2 is the scale factor; without one it is 1.
pub main :
    (fl : Floats) (readings : ℕ → Timeval × Timeval) (scale_factor : ℕ)
    → Features
    → (argument : Option String) → List (String × fl.Real)
main fl readings scale_factor f argument =
    calibrated fl readings scale_factor (map (λ (t : Test). t.line) (run_blocks f argument blocks))
