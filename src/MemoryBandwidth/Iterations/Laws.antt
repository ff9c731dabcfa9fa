-- ===== src/MemoryBandwidth/Iterations/Laws.antt =====
-- GetIterationCount of MemoryBandwidth/MemoryBandwidth.c: its result and the global it changes.
use u_arch_test.Prelude.{
  mul-le-mul, div-mul-le, lt-div-mul, div-le, ℕ, ◌+◌, ◌-◌, ◌*◌, ◌/◌, ◌%◌, ◌^◌, ◌≤◌, ◌<◌, ◌≡◌, refl,
  ap, ltb, if◌then◌else◌, some, u64, u64_small, checked_div, checked_div_lem, ◌>>=◌, arith,
}
use u_arch_test.MemoryBandwidth.Iterations.{raise_gb, round_count, get_iteration_count}

round_count_lem :
    (q : ℕ)
    → (round_count q % 2 ≡ 0)
      × (8 ≤ round_count q)
      × (q < 2 ^ 64 - 1 → q ≤ round_count q)
      × (8 < round_count q → round_count q ≤ q + 1)
unfolding round_count
round_count_lem q = (ground arith, ground arith, ground arith, ground arith)

raise_gb_lem : (test_size gb : ℕ) → raise_gb test_size gb ≡ (if ltb 64 test_size then 64 else gb)
unfolding raise_gb
raise_gb_lem test_size gb = ground arith

more_rounds : (w b q r : ℕ) → w < (q + 1) * b → q ≤ r → w < (r + 1) * b
more_rounds w b q r h le = omega (arith, mul-le-mul (q + 1) (r + 1) b (omega arith))

one_more_round : (w b q r : ℕ) → q * b ≤ w → r ≤ q + 1 → r * b ≤ w + b
one_more_round w b q r h le = omega (arith, mul-le-mul r (q + 1) b le)

module _ (w b : ℕ) (some_b : 0 < b) (small : w < 2 ^ 60) where
  abbrev q : ℕ
  q = w / b

  rounded :
      (round_count q % 2 ≡ 0)
      × (8 ≤ round_count q)
      × (w < (round_count q + 1) * b)
      × (8 < round_count q → round_count q * b ≤ w + b)
  rounded =
      let (even, least, up, near) = round_count_lem q in
      (
        even,
        least,
        more_rounds w b q (round_count q) (lt-div-mul w b some_b)
            (up (omega (arith, div-le w b some_b))),
        λ h. one_more_round w b q (round_count q) (div-mul-le w b) (near h),
      )

-- For a size that is not 0 and up to 2 ^ 40 gigabytes: the count is even and at least 8, moves
-- the wanted amount of data up to one pass over the buffer, and, unless it is the minimum of 8,
-- no more than one pass beyond it. The amount is 64 GB for sizes above 64 KB and the one asked for
-- at smaller sizes.
pub get_iteration_count_lem :
    (test_size threads gb : ℕ)
    → 0 < test_size
    → gb < 2 ^ 40
    → let wanted = (if ltb 64 test_size then 64 else gb) * 1024 * 1024 in
      (iterations : ℕ) × (get_iteration_count test_size threads gb
        ≡ some (iterations, (if ltb 64 test_size then 64 else gb)))
      × (iterations % 2 ≡ 0)
      × (8 ≤ iterations)
      × (wanted < (iterations + 1) * test_size)
      × (8 < iterations → iterations * test_size ≤ wanted + test_size)
unfolding get_iteration_count
get_iteration_count_lem test_size threads gb some_size few =
    let facts =
      rounded ((if ltb 64 test_size then 64 else gb) * 1024 * 1024) test_size some_size
        (ground arith) in
    rw
      (
        raise_gb_lem test_size gb,
        checked_div_lem (u64 ((if ltb 64 test_size then 64 else gb) * 1024 * 1024)) test_size
            some_size,
        ◌>>=◌,
        u64_small ((if ltb 64 test_size then 64 else gb) * 1024 * 1024) (ground arith),
      )
      (
        round_count ((if ltb 64 test_size then 64 else gb) * 1024 * 1024 / test_size),
        refl,
        facts.0,
        facts.1,
        facts.2,
        facts.3,
      )

left_is_64 :
    (large threads gb count left : ℕ)
    → 64 < large
    → get_iteration_count large threads gb ≡ some (count, left)
    → left ≡ 64
unfolding get_iteration_count checked_div
left_is_64 large threads gb count left h e = ground (arith, raise_gb_lem large gb)

-- The global is sticky: after a call for more than 64 KB, a call for any size returns what it would
-- if 64 GB had been asked for, whatever was.
pub get_iteration_count_sticky :
    (large threads size threads' gb count left : ℕ)
    → 64 < large
    → get_iteration_count large threads gb ≡ some (count, left)
    → get_iteration_count size threads' left ≡ get_iteration_count size threads' 64
get_iteration_count_sticky large threads size threads' gb count left h e =
    ap (get_iteration_count size threads') (left_is_64 large threads gb count left h e)
