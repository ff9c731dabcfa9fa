-- ===== src/MemoryBandwidth/Options/Tests.antt =====
-- Examples of the options of MemoryBandwidth.
use u_arch_test.Prelude.{◌≡◌, refl, true, false, List, [], ◌∷◌, if◌then◌else◌}
use u_arch_test.Prelude.Int.{ℤ, pos}
use u_arch_test.MemoryBandwidth.Options.{
  parsed, defaults, scalar_read, switch, parse_loop, set_method,
}
use u_arch_test.MemoryBandwidth.Options.Laws.{
  Setting, threads, private_array, method, command_line, meanings, parse_loop-command_line,
}
use Prim.Native.String.{String}
use text.Mathlib.Text.{starts_with}

-- A stand-in for atoi that knows two numbers.
abbrev numbers : String → ℤ
numbers text = if starts_with text "4" then pos 4 else pos 0

abbrev settings : List Setting
settings = threads "2" ∷ private_array ∷ threads "4" ∷ method "scalar" ∷ []

parse_loop_run :
    parse_loop numbers true
      ("-threads" ∷ "2" ∷ "-private" ∷ "-threads" ∷ "4" ∷ "-method" ∷ "scalar" ∷ [])
      (defaults 8)
    ≡ parsed (record (defaults 8) {
      threads = pos 4;
      shared = false;
      method_set = true;
      bw_func = scalar_read;
    })
unfolding parse_loop switch set_method
parse_loop_run = refl

parse_loop-command_line_example :
    parse_loop numbers true (command_line settings ("-sizekb" ∷ [])) (defaults 8)
    ≡ parse_loop numbers true ("-sizekb" ∷ []) (meanings numbers true settings (defaults 8))
parse_loop-command_line_example =
    parse_loop-command_line numbers true settings ("-sizekb" ∷ []) (defaults 8)
