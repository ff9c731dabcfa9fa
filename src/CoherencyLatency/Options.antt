-- ===== src/CoherencyLatency/Options.antt =====
-- The options of CoherencyLatency/PThreadsCoherencyLatency.c: the first half of `main`.
-- `*argv == '-'` with `strncmp(argv + 1, w, n) == 0` is one test here, whether the argument starts
-- with `-` and the first n characters of w.
pub mod Laws
mod Tests
use u_arch_test.Prelude.{ℕ, if◌then◌else◌, List, [], ◌∷◌}
use u_arch_test.Prelude.Int.{ℤ, pos, wrap}
use Prim.Native.String.{String}
use text.Mathlib.Text.{starts_with}

-- `iter` and `offsets`
pub record Options : Type 0 where
  pub iter : ℕ
  pub offsets : ℤ

unfoldable pub defaults : Options
defaults = record { iter = 10000000; offsets = pos 1 }

-- The options, in the order in which the loop tests for them.
pub data Switch : Type 0 where
  help iterations_value bounce_value offset_value unknown no_dash : Switch

unfoldable pub switch : String → Switch
switch arg =
    if starts_with arg "-"
    then if starts_with arg "-help"
      then help
      else if starts_with arg "-iterations"
      then iterations_value
      else if starts_with arg "-bounce"
      then bounce_value
      else if starts_with arg "-offset"
      then offset_value
      else unknown
    else no_dash

-- `main` returns with a code, or goes on with the options.
pub data Parsed : Type 0 where
  exits : (code : ℕ) → Parsed
  parsed : Options → Parsed

module _ (atoi : String → ℤ) where
  -- The loop over the arguments after the program's name. A missing value is reported, and the loop
  -- is over; -bounce skips the argument after it; an argument without a dash is passed over.
  unfoldable pub parse_loop : List String → Options → Parsed
  parse_loop [] o = parsed o
  parse_loop (arg ∷ []) o = elim (switch arg) [ help ↦ exits 0 | unknown ↦ exits 1 | _ ↦ parsed o ]
  parse_loop (arg ∷ value ∷ rest) o = elim (switch arg) [
    | help ↦ exits 0
    | iterations_value ↦ parse_loop rest (record o { iter = wrap 64 (atoi value) })
    | bounce_value ↦ parse_loop rest o
    | offset_value ↦ parse_loop rest (record o { offsets = atoi value })
    | unknown ↦ exits 1
    | no_dash ↦ parse_loop (value ∷ rest) o
  ]
