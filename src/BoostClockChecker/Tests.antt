-- ===== src/BoostClockChecker/Tests.antt =====
-- Examples of BoostClockChecker.
use u_arch_test.Prelude.{
  ℕ, zero, suc, ◌+◌, ◌*◌, ◌<◌, ◌≡◌, refl, ap, List, [], ◌∷◌, Option, some, get_elem?, length,
  replicate, arith,
}
use u_arch_test.Prelude.Int.{ℤ, pos}
use u_arch_test.Timing.Tests.{integers}
use u_arch_test.Timing.{Timeval}
use u_arch_test.BoostClockChecker.{
  Options, defaults, parsed, parse_loop, Row, tsc_per_ms, clock_table,
}
use u_arch_test.BoostClockChecker.Laws.{render, parse_loop-render, line, clock_table_lem}
use Prim.Native.String.{String}

-- Numbers in unary, and their reading.
abbrev unary : ℕ → String
unary zero = String.[]
unary (suc n) = String.◌∷◌ "1" (unary n)

abbrev letters : String → ℕ
letters String.[] = 0
letters (String.◌∷◌ c s) = suc (letters s)

letters-unary : (n : ℕ) → letters (unary n) ≡ n
letters-unary zero = refl
letters-unary (suc n) = ap suc (letters-unary n)

abbrev read : String → ℤ
read s = pos (letters s)

abbrev two_samples : Options
two_samples = record { iterations = 5; samples = 2; sleep_seconds = 1 }

parse_loop-render_example :
    parse_loop read read (render unary two_samples) defaults ≡ parsed two_samples
parse_loop-render_example =
    parse_loop-render read read unary defaults two_samples (λ n h. ap pos (letters-unary n))
      (λ n h. ap pos (letters-unary n))
      (record { samples = omega arith; iterations = omega arith; sleep_seconds = omega arith })

abbrev ticking : ℕ → ℕ → ℕ
ticking k n = n * 3 + k

abbrev given : ℕ → Option (List ℕ)
given bytes = some (replicate 2 0)

abbrev begin : Timeval
begin = record { sec = 3; usec = 0 }

abbrev end : Timeval
end = record { sec = 5; usec = 0 }

clock_table_lem_example :
    let per_ms = tsc_per_ms integers ticking given (ticking 2 8000000000) begin end in
    (rows : List (Row integers.Real)) × (clock_table integers ticking given begin end two_samples
      ≡ some rows)
    × (length rows ≡ 2)
    × ((k : ℕ) → k < 2 → get_elem? rows k ≡ some (line integers ticking given 5 per_ms k))
clock_table_lem_example =
    clock_table_lem integers ticking given begin end two_samples (0 ∷ 0 ∷ []) (omega arith) refl
      refl
