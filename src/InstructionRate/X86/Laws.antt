-- ===== src/InstructionRate/X86/Laws.antt =====
-- The tests that main of InstructionRate/x86instructionrate.c runs.
use u_arch_test.Prelude.{
  ℕ, zero, suc, ◌*◌, ◌<◌, ◌≡◌, refl, ==-refl, if◌then◌else◌, Bool, true, false, ◌&&◌, ◌||◌,
  Bool-cases, inl, inr, List, [], ◌∷◌, Option, none, some, All, All-append, keep, keep-append, all,
  arith,
}
use u_arch_test.InstructionRate.Measure.{
  Count, iterations, latency_iterations, iterations_22, resolved, count_of,
}
use u_arch_test.InstructionRate.X86.Row.{Test, codes, strncmp_eq, argument_check}
use u_arch_test.InstructionRate.X86.Wrappers.{x86_wrappers}
use u_arch_test.InstructionRate.X86.{
  Features, Guard, if_avx, if_avx2, if_bmi2, if_avx512, if_fma_and_avx, if_fma4, holds, blocks,
  run_block, run_blocks,
}
use Prim.Native.String.{String}
use text.Mathlib.Text.{find?}

-- The comparison that selects a test.
abbrev pub matches : Option String → Test → Bool
matches argument t = argument_check argument t.compared t.arg_length

strncmp_eq_refl : (n : ℕ) (a : List ℕ) → strncmp_eq n a a ≡ true
unfolding strncmp_eq
strncmp_eq_refl zero a = refl
strncmp_eq_refl (suc n) [] = refl
strncmp_eq_refl (suc n) (x ∷ a) = ground (arith, ==-refl x, strncmp_eq_refl n a)

run_block-keep :
    (argument : Option String) (ts : List Test) → run_block argument ts ≡ keep (matches argument) ts
unfolding run_block
run_block-keep argument [] = refl
run_block-keep argument (t ∷ ts) = ground (arith, run_block-keep argument ts)

keep-none : (ts : List Test) → keep (matches none) ts ≡ ts
unfolding argument_check
keep-none [] = refl
keep-none (t ∷ ts) = ground (arith, keep-none ts)

run_blocks-keep :
    (f : Features) (argument : Option String) (bs : List (Guard × List Test))
    → run_blocks f argument bs ≡ keep (matches argument) (run_blocks f none bs)
unfolding run_blocks
run_blocks-keep f argument [] = refl
run_blocks-keep f argument ((g, ts) ∷ bs) = ground (
  arith,
  run_blocks-keep f argument bs,
  run_block-keep argument ts,
  run_block-keep none ts,
  keep-none ts,
  keep-append (matches argument) ts (run_blocks f none bs),
)

-- With an argument, main runs those of the tests that it would run without one that the argument
-- selects, in the same order; and every test is selected by its own name, although many of the
-- lengths that are compared are not the name's.
pub run_blocks_lem :
    (f : Features) (argument : String)
    → (run_blocks f (some argument) blocks
        ≡ keep (matches (some argument)) (run_blocks f none blocks))
      × ((t : Test) → matches (some t.compared) t ≡ true)
unfolding argument_check
run_blocks_lem f argument =
    (run_blocks-keep f (some argument) blocks, λ t. strncmp_eq_refl t.arg_length (codes t.compared))

-- What holds of every test in the blocks holds of those that run.
module _ (P : Test → Type 0) (argument : Option String) where
  run_block-All : (ts : List Test) → All P ts → All P (run_block argument ts)
  unfolding run_block
  run_block-All [] h = tt
  run_block-All (t ∷ ts) h = elim (Bool-cases (argument_check argument t.compared t.arg_length)) [
    | inl runs ↦ rw runs (h.0, run_block-All ts h.1)
    | inr skipped ↦ rw skipped (run_block-All ts h.1)
  ]

  pub run_blocks-All :
      (f : Features) (bs : List (Guard × List Test))
      → All (λ (b : Guard × List Test). All P b.1) bs
      → All P (run_blocks f argument bs)
  unfolding run_blocks
  run_blocks-All f [] h = tt
  run_blocks-All f ((g, ts) ∷ bs) h = elim (Bool-cases (holds f g)) [
    | inl runs ↦ rw runs (
        All-append P (run_block argument ts) (run_blocks f argument bs) (run_block-All ts h.0)
          (run_blocks-All f bs h.1))
    | inr skipped ↦ rw skipped (run_blocks-All f bs h.1)
  ]

-- What a processor must have to run an assembly function, by the function's name: AVX-512 if it
-- says 512, some AVX if it says 256, and BMI2 for pdep and pext.
pub data Need : Type 0 where
  nothing need_512 need_256 need_bmi2 : Need

abbrev says : String → String → Bool
says name part = elim (find? name part) [ none ↦ false | some i ↦ true ]

abbrev pub need_of : String → Need
need_of name =
    if says name "512"
    then need_512
    else if says name "256"
    then need_256
    else if says name "pdep" || says name "pext"
    then need_bmi2
    else nothing

abbrev pub satisfied : Features → Need → Bool
satisfied f nothing = true
satisfied f need_512 = f.avx512
satisfied f need_256 = f.avx || f.avx2 || f.avx512 || f.fma4
satisfied f need_bmi2 = f.bmi2

-- What a block's test of the flags provides.
abbrev provides : Guard → Need → Bool
provides g nothing = true
provides if_avx512 need_512 = true
provides if_avx512 need_256 = true
provides if_avx need_256 = true
provides if_avx2 need_256 = true
provides if_fma_and_avx need_256 = true
provides if_fma4 need_256 = true
provides if_bmi2 need_bmi2 = true
provides _ _ = false

provided :
    (f : Features) (g : Guard) (n : Need)
    → provides g n ≡ true
    → holds f g ≡ true
    → satisfied f n ≡ true
unfolding holds
provided f g n p h = ground arith

-- The assembly function that a test comes down to, through its wrapper.
abbrev pub target : Test → String
target t = (resolved x86_wrappers t.line.testfunc).0

abbrev block_provides : Guard × List Test → Bool
block_provides (g, ts) = all (λ t. provides g (need_of (target t))) ts

blocks_provide : all block_provides blocks ≡ true
unfolding resolved
blocks_provide = refl

-- What the tests in a list need.
abbrev pub AllSatisfied : Features → List Test → Type 0
AllSatisfied f ts = All (λ t. satisfied f (need_of (target t)) ≡ true) ts

run_block-AllSatisfied :
    (f : Features) (g : Guard) (argument : Option String) (ts : List Test)
    → holds f g ≡ true
    → all (λ t. provides g (need_of (target t))) ts ≡ true
    → AllSatisfied f (run_block argument ts)
unfolding run_block
run_block-AllSatisfied f g argument [] h provides_all = tt
run_block-AllSatisfied f g argument (t ∷ ts) h provides_all =
    ground (arith, provided f g (need_of (target t)), run_block-AllSatisfied f g argument ts h)

run_blocks-AllSatisfied :
    (f : Features) (argument : Option String) (bs : List (Guard × List Test))
    → all block_provides bs ≡ true
    → AllSatisfied f (run_blocks f argument bs)
unfolding run_blocks
run_blocks-AllSatisfied f argument [] h = tt
run_blocks-AllSatisfied f argument ((g, ts) ∷ bs) h =
    let (here, later) =
      both (all (λ t. provides g (need_of (target t))) ts) (all block_provides bs) h in
    elim (Bool-cases (holds f g)) [
      | inl runs ↦ rw runs (
          All-append (λ t. satisfied f (need_of (target t)) ≡ true) (run_block argument ts)
            (run_blocks f argument bs) (run_block-AllSatisfied f g argument ts runs here)
            (run_blocks-AllSatisfied f argument bs later))
      | inr skipped ↦ rw skipped (run_blocks-AllSatisfied f argument bs later)
    ]
  where
    both : (a b : Bool) → (a && b) ≡ true → (a ≡ true) × (b ≡ true)
    both a b e = ground arith

-- Whatever the processor supports and whatever the argument, main calls no assembly function that
-- says 512 in its name without AVX-512, none that says 256 without AVX, AVX2, AVX-512 or FMA4, and
-- neither pdep nor pext without BMI2, directly or through a wrapper.
pub run_blocks-satisfied :
    (f : Features) (argument : Option String) → AllSatisfied f (run_blocks f argument blocks)
run_blocks-satisfied f argument = run_blocks-AllSatisfied f argument blocks blocks_provide

-- How often a count runs a test for each unit of the scale factor.
abbrev pub per_unit : Count → ℕ
per_unit iterations = 1500000000
per_unit latency_iterations = 7500000000
per_unit iterations_22 = 33000000000

-- With a scale factor below 558000000 no count of iterations wraps.
pub count_of_lem :
    (c : Count) (scale_factor : ℕ)
    → scale_factor < 558000000
    → count_of scale_factor c ≡ per_unit c * scale_factor
unfolding count_of
count_of_lem iterations scale_factor h = omega arith
count_of_lem latency_iterations scale_factor h = omega arith
count_of_lem iterations_22 scale_factor h = omega arith
