-- ===== src/InstructionRate/X86/Row.antt =====
-- InstructionRate/x86instructionrate.c: argumentCheck, and a test of main with the comparison that
-- selects it.
use u_arch_test.Prelude.{
  ℕ, zero, suc, ◌==◌, Bool, true, false, ◌&&◌, List, [], ◌∷◌, Option, none, some,
}
use u_arch_test.InstructionRate.Measure.{Print, print, Count}
pub use u_arch_test.InstructionRate.Measure.{iterations, latency_iterations, iterations_22}
use Prim.Native.Char.{code}
use Prim.Native.String.{String}

-- The bytes of an ASCII text.
abbrev pub codes : String → List ℕ
codes String.[] = []
codes (String.◌∷◌ c s) = code c ∷ codes s

-- `strncmp(a, b, n) == 0`: the texts agree on the first n bytes, or end before at the same place.
unfoldable pub strncmp_eq : (n : ℕ) → List ℕ → List ℕ → Bool
strncmp_eq zero a b = true
strncmp_eq (suc n) [] [] = true
strncmp_eq (suc n) [] (y ∷ b) = false
strncmp_eq (suc n) (x ∷ a) [] = false
strncmp_eq (suc n) (x ∷ a) (y ∷ b) = (x == y) && strncmp_eq n a b

-- `argumentCheck(argc, argv[1], test, argLength) == 0`; `none` is `argc <= 1`.
unfoldable pub argument_check : (argument : Option String) (test : String) (arg_length : ℕ) → Bool
argument_check none test arg_length = true
argument_check (some argument) test arg_length = strncmp_eq arg_length (codes argument) (codes test)

-- `if (argumentCheck(argc, argv[1], compared, arg_length) == 0) printf(...)`
pub record Test : Type 0 where
  pub compared : String
  pub arg_length : ℕ
  pub line : Print

-- A line with a rate, and one with a latency.
abbrev pub rate : String → ℕ → String → Count → String → Test
rate compared arg_length label count testfunc = record {
  compared = compared;
  arg_length = arg_length;
  line = print label count false testfunc;
}

abbrev pub latency : String → ℕ → String → Count → String → Test
latency compared arg_length label count testfunc = record {
  compared = compared;
  arg_length = arg_length;
  line = print label count true testfunc;
}
