-- ===== src/CoherencyLatency/Options/Laws.antt =====
-- The option loop of CoherencyLatency/PThreadsCoherencyLatency.c against what a command line means.
use u_arch_test.Prelude.{◌≡◌, refl, ◌∙◌, List, [], ◌∷◌, All}
use u_arch_test.Prelude.Int.{ℤ, wrap}
use u_arch_test.CoherencyLatency.Options.{Options, no_dash, switch, parse_loop}
use Prim.Native.String.{String}

-- One part of a command line; `bounce` carries the argument that is skipped, `plain` is an argument
-- without a dash.
pub data Setting : Type 0 where
  iterations offset bounce plain : String → Setting

pub written : Setting → List String → List String
written (iterations v) rest = "-iterations" ∷ v ∷ rest
written (offset v) rest = "-offset" ∷ v ∷ rest
written (bounce skipped) rest = "-bounce" ∷ skipped ∷ rest
written (plain arg) rest = arg ∷ rest

pub command_line : List Setting → List String → List String
command_line [] rest = rest
command_line (s ∷ more) rest = written s (command_line more rest)

-- A plain argument has no dash.
abbrev pub IsPlain : Setting → Type 0
IsPlain (plain arg) = switch arg ≡ no_dash
IsPlain _ = Unit

module _ (atoi : String → ℤ) where
  pub meaning : Setting → Options → Options
  meaning (iterations v) o = record o { iter = wrap 64 (atoi v) }
  meaning (offset v) o = record o { offsets = atoi v }
  meaning (bounce skipped) o = o
  meaning (plain arg) o = o

  pub meanings : List Setting → Options → Options
  meanings [] o = o
  meanings (s ∷ more) o = meanings more (meaning s o)

  parse_loop-plain :
      (arg : String) (rest : List String) (o : Options)
      → switch arg ≡ no_dash
      → parse_loop atoi (arg ∷ rest) o ≡ parse_loop atoi rest o
  unfolding parse_loop
  parse_loop-plain arg [] o h = rw (parse_loop, h)
  parse_loop-plain arg (r ∷ rest) o h = rw (parse_loop, h)

  parse_loop-written :
      (s : Setting) (rest : List String) (o : Options)
      → IsPlain s
      → parse_loop atoi (written s rest) o ≡ parse_loop atoi rest (meaning s o)
  unfolding parse_loop written meaning switch
  parse_loop-written (iterations v) rest o h = refl
  parse_loop-written (offset v) rest o h = refl
  parse_loop-written (bounce skipped) rest o h = refl
  parse_loop-written (plain arg) rest o h = parse_loop-plain arg rest o h

  -- A command line of CoherencyLatency made of -iterations, -offset and -bounce, each with the
  -- argument after it, and of arguments without a dash, followed by anything, is read part by part:
  -- the loop goes on with what follows. The argument after -bounce is lost, whatever it is.
  pub parse_parts :
      (parts : List Setting) (rest : List String) (o : Options)
      → All IsPlain parts
      → parse_loop atoi (command_line parts rest) o ≡ parse_loop atoi rest (meanings parts o)
  unfolding command_line meanings
  parse_parts [] rest o h = refl
  parse_parts (s ∷ more) rest o h =
      parse_loop-written s (command_line more rest) o h.0 ∙ parse_parts more rest (meaning s o) h.1
