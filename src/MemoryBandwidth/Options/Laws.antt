-- ===== src/MemoryBandwidth/Options/Laws.antt =====
-- The option loop of MemoryBandwidth/MemoryBandwidth.c against the settings that a command line means.
use u_arch_test.Prelude.{◌≡◌, refl, ◌∙◌, Bool, true, false, List, [], ◌∷◌, arith}
use u_arch_test.Prelude.Int.{ℤ, wrap}
use u_arch_test.MemoryBandwidth.Options.{
  Options, exits, set_method, Switch, threads_value, sleep_value, branchinterval_value,
  sizekb_value, data_value, autothreads_value, method_value, switch, parse_loop, BwFunc,
  scalar_read, asm_read, avx512_read, sse_read, choose_method,
}
use Prim.Native.String.{String}

-- One setting of a command line, with the text of its value.
pub data Setting : Type 0 where
  threads sleep branchinterval sizekb data_gb autothreads method : String → Setting
  shared private_array : Setting

-- How it is written.
pub written : Setting → List String → List String
written (threads v) rest = "-threads" ∷ v ∷ rest
written (sleep v) rest = "-sleep" ∷ v ∷ rest
written (branchinterval v) rest = "-branchinterval" ∷ v ∷ rest
written (sizekb v) rest = "-sizekb" ∷ v ∷ rest
written (data_gb v) rest = "-data" ∷ v ∷ rest
written (autothreads v) rest = "-autothreads" ∷ v ∷ rest
written (method v) rest = "-method" ∷ v ∷ rest
written shared rest = "-shared" ∷ rest
written private_array rest = "-private" ∷ rest

pub command_line : List Setting → List String → List String
command_line [] rest = rest
command_line (s ∷ more) rest = written s (command_line more rest)

-- The options that are followed by a value.
abbrev pub takes_value : Switch → Bool
takes_value threads_value = true
takes_value sleep_value = true
takes_value branchinterval_value = true
takes_value sizekb_value = true
takes_value data_value = true
takes_value autothreads_value = true
takes_value method_value = true
takes_value _ = false

module _ (atoi : String → ℤ) (avx512_supported : Bool) where
  -- What it means.
  pub meaning : Setting → Options → Options
  meaning (threads v) o = record o { threads = atoi v }
  meaning (sleep v) o = record o { sleep_time = atoi v }
  meaning (branchinterval v) o = record o { branch_interval = atoi v }
  meaning (sizekb v) o = record o { single_size = atoi v }
  meaning (data_gb v) o = record o { gb_to_transfer = wrap 64 (atoi v) }
  meaning (autothreads v) o = record o { autothreads = atoi v }
  meaning (method v) o = set_method avx512_supported v (record o { method_set = true })
  meaning shared o = record o { shared = true }
  meaning private_array o = record o { shared = false }

  pub meanings : List Setting → Options → Options
  meanings [] o = o
  meanings (s ∷ more) o = meanings more (meaning s o)

  parse_loop-written :
      (s : Setting) (rest : List String) (o : Options)
      → parse_loop atoi avx512_supported (written s rest) o
        ≡ parse_loop atoi avx512_supported rest (meaning s o)
  unfolding parse_loop written meaning switch
  parse_loop-written (threads v) rest o = refl
  parse_loop-written (sleep v) rest o = refl
  parse_loop-written (branchinterval v) rest o = refl
  parse_loop-written (sizekb v) rest o = refl
  parse_loop-written (data_gb v) rest o = refl
  parse_loop-written (autothreads v) rest o = refl
  parse_loop-written (method v) rest o = refl
  parse_loop-written shared [] o = refl
  parse_loop-written shared (r ∷ rest) o = refl
  parse_loop-written private_array [] o = refl
  parse_loop-written private_array (r ∷ rest) o = refl

  -- A command line made of settings, in any order and with repetitions, followed by anything, is
  -- read setting by setting: the loop goes on with what follows, and with the options that the
  -- settings mean one after another, so that a later setting overrides an earlier one.
  pub parse_loop-command_line :
      (settings : List Setting) (rest : List String) (o : Options)
      → parse_loop atoi avx512_supported (command_line settings rest) o
        ≡ parse_loop atoi avx512_supported rest (meanings settings o)
  unfolding command_line meanings
  parse_loop-command_line [] rest o = refl
  parse_loop-command_line (s ∷ more) rest o =
      parse_loop-written s (command_line more rest) o
      ∙ parse_loop-command_line more rest (meaning s o)

  at_end :
      (arg : String) (o : Options)
      → takes_value (switch arg) ≡ true
      → parse_loop atoi avx512_supported (arg ∷ []) o ≡ exits 1
  unfolding parse_loop
  at_end arg o h = ground arith

  -- A value option at the end of a command line of settings, without its value: `main` returns 1,
  -- whatever the settings before.
  pub parse_loop-missing :
      (settings : List Setting) (arg : String) (o : Options)
      → takes_value (switch arg) ≡ true
      → parse_loop atoi avx512_supported (command_line settings (arg ∷ [])) o ≡ exits 1
  parse_loop-missing settings arg o h =
      parse_loop-command_line settings (arg ∷ []) o ∙ at_end arg (meanings settings o) h

-- Whether a processor with these extensions can run a kernel that `main` picks by itself.
abbrev pub runs : (sse_supported avx_supported avx512_supported : Bool) → BwFunc → Bool
runs sse avx avx512 scalar_read = true
runs sse avx avx512 sse_read = sse
runs sse avx avx512 asm_read = avx
runs sse avx avx512 avx512_read = avx512
runs sse avx avx512 _ = false

-- Without -method, `main` picks a kernel that the processor supports, and scalar code only where it
-- supports none of the three extensions.
pub choose_method-runs :
    (sse avx avx512 : Bool) (o : Options)
    → o.method_set ≡ false
    → (runs sse avx avx512 (choose_method sse avx avx512 o).bw_func ≡ true)
      × ((choose_method sse avx avx512 o).bw_func ≡ scalar_read
          → (sse ≡ false) × (avx ≡ false) × (avx512 ≡ false))
unfolding choose_method
choose_method-runs sse avx avx512 o h = ground arith
