-- ===== src/MemoryLatency/Options/Tests.antt =====
-- Examples of the options of MemoryLatency.
use u_arch_test.Prelude.{◌≡◌, refl, List, [], ◌∷◌, true, if◌then◌else◌}
use u_arch_test.Prelude.Int.{ℤ, pos}
use u_arch_test.MemoryLatency.Options.{
  parsed, null_read, defaults, switch, set_test, matchedstlftest, parse_loop,
}
use u_arch_test.MemoryLatency.Options.Laws.{Setting, test, iter, hugepages}
use Prim.Native.String.{String}
use text.Mathlib.Text.{starts_with}

-- A stand-in for atoi that knows two numbers.
abbrev numbers : String → ℤ
numbers text = if starts_with text "9" then pos 9 else pos 0

abbrev settings : List Setting
settings = hugepages ∷ iter "9" ∷ test "matched_stlf" ∷ []

parse_loop_run :
    parse_loop numbers ("-hugepages" ∷ "-iter" ∷ "9" ∷ "-test" ∷ "matched_stlf" ∷ []) defaults
    ≡ parsed (record defaults {
      huge_pages = true;
      iterations = 9;
      stlf = 1;
      stlf_func = matchedstlftest;
    })
unfolding parse_loop switch set_test
parse_loop_run = refl

null_run : parse_loop numbers ("-hugepages" ∷ "-sizekb" ∷ []) defaults ≡ null_read
unfolding parse_loop switch
null_run = refl
