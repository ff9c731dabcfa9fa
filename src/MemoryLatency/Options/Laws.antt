-- ===== src/MemoryLatency/Options/Laws.antt =====
-- The option loop of MemoryLatency/MemoryLatency.c against the settings that a command line means.
use u_arch_test.Prelude.{◌≡◌, refl, ◌∙◌, Bool, true, false, List, [], ◌∷◌, arith}
use u_arch_test.Prelude.Int.{ℤ, wrap}
use u_arch_test.MemoryLatency.Options.{
  Options, null_read, set_test, Switch, test_value, maxsizemb_value, iter_value, sizekb_value,
  switch, parse_loop,
}
use Prim.Native.String.{String}

-- One setting of a command line, with the text of its value.
pub data Setting : Type 0 where
  test maxsizemb iter sizekb : String → Setting
  hugepages : Setting

-- How it is written.
pub written : Setting → List String → List String
written (test v) rest = "-test" ∷ v ∷ rest
written (maxsizemb v) rest = "-maxsizemb" ∷ v ∷ rest
written (iter v) rest = "-iter" ∷ v ∷ rest
written (sizekb v) rest = "-sizekb" ∷ v ∷ rest
written hugepages rest = "-hugepages" ∷ rest

pub command_line : List Setting → List String → List String
command_line [] rest = rest
command_line (s ∷ more) rest = written s (command_line more rest)

-- The options that are followed by a value.
abbrev pub takes_value : Switch → Bool
takes_value test_value = true
takes_value maxsizemb_value = true
takes_value iter_value = true
takes_value sizekb_value = true
takes_value _ = false

module _ (atoi : String → ℤ) where
  -- What it means.
  pub meaning : Setting → Options → Options
  meaning (test v) o = set_test v o
  meaning (maxsizemb v) o = record o { max_test_size_mb = wrap 32 (atoi v) }
  meaning (iter v) o = record o { iterations = wrap 32 (atoi v) }
  meaning (sizekb v) o = record o { single_size = wrap 32 (atoi v) }
  meaning hugepages o = record o { huge_pages = true }

  pub meanings : List Setting → Options → Options
  meanings [] o = o
  meanings (s ∷ more) o = meanings more (meaning s o)

  parse_loop-written :
      (s : Setting) (rest : List String) (o : Options)
      → parse_loop atoi (written s rest) o ≡ parse_loop atoi rest (meaning s o)
  unfolding parse_loop written meaning switch
  parse_loop-written (test v) rest o = refl
  parse_loop-written (maxsizemb v) rest o = refl
  parse_loop-written (iter v) rest o = refl
  parse_loop-written (sizekb v) rest o = refl
  parse_loop-written hugepages [] o = refl
  parse_loop-written hugepages (r ∷ rest) o = refl

  -- A command line of MemoryLatency made of settings, in any order and with repetitions, followed
  -- by anything, is read setting by setting: the loop goes on with what follows, and with the
  -- options that the settings mean one after another.
  pub parse_settings :
      (settings : List Setting) (rest : List String) (o : Options)
      → parse_loop atoi (command_line settings rest) o ≡ parse_loop atoi rest (meanings settings o)
  unfolding command_line meanings
  parse_settings [] rest o = refl
  parse_settings (s ∷ more) rest o =
      parse_loop-written s (command_line more rest) o ∙ parse_settings more rest (meaning s o)

  at_end :
      (arg : String) (o : Options)
      → takes_value (switch arg) ≡ true
      → parse_loop atoi (arg ∷ []) o ≡ null_read
  unfolding parse_loop
  at_end arg o h = ground arith

  -- A value option of MemoryLatency at the end of a command line of settings, without its value:
  -- the loop does not report it, but reads through the NULL that ends argv.
  pub parse_settings_null :
      (settings : List Setting) (arg : String) (o : Options)
      → takes_value (switch arg) ≡ true
      → parse_loop atoi (command_line settings (arg ∷ [])) o ≡ null_read
  parse_settings_null settings arg o h =
      parse_settings settings (arg ∷ []) o ∙ at_end arg (meanings settings o) h
