-- ===== src/CoherencyLatency/Options/Tests.antt =====
-- Examples of the options of CoherencyLatency.
use u_arch_test.Prelude.{◌≡◌, refl, List, [], ◌∷◌}
use u_arch_test.Prelude.Int.{ℤ, pos}
use u_arch_test.CoherencyLatency.Options.{parsed, defaults, switch, parse_loop}
use u_arch_test.CoherencyLatency.Options.Laws.{
  Setting, iterations, bounce, plain, command_line, meanings, parse_parts,
}
use Prim.Native.String.{String}

-- A stand-in for atoi.
abbrev seven : String → ℤ
seven text = pos 7

parse_loop_run :
    parse_loop seven ("-bounce" ∷ "-offset" ∷ "-iterations" ∷ "7" ∷ []) defaults
    ≡ parsed (record defaults { iter = 7 })
unfolding parse_loop switch
parse_loop_run = refl

abbrev parts : List Setting
parts = bounce "-offset" ∷ plain "word" ∷ iterations "7" ∷ []

parse_parts_example :
    parse_loop seven (command_line parts ("-offset" ∷ [])) defaults
    ≡ parse_loop seven ("-offset" ∷ []) (meanings seven parts defaults)
unfolding switch
parse_parts_example = parse_parts seven parts ("-offset" ∷ []) defaults (tt, (refl, (tt, tt)))
