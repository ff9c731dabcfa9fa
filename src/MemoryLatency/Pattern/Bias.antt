-- ===== src/MemoryLatency/Pattern/Bias.antt =====
-- FillPatternArr of MemoryLatency/MemoryLatency.c: where the first swap puts the last element.
use u_arch_test.Prelude.{
  ℕ, suc, ◌*◌, ◌^◌, ◌≤◌, ◌<◌, ◌≡◌, ◌∙◌, List, some, length, arith, ◌>>=◌, lt→ltb, length-set,
}
use u_arch_test.MemoryLatency.Pattern.{pick, identity_loop, shuffle_loop, fill}
use u_arch_test.MemoryLatency.Pattern.Cycle.{stride, Link, mul-ne, swapped, swapped-i}
use u_arch_test.MemoryLatency.Pattern.Identity.{Identity, identity_loop-Identity}
use u_arch_test.MemoryLatency.Pattern.Shuffle.{join-Cycles}
use u_arch_test.MemoryLatency.Pattern.Fill.{Cycles-identity}
use u_arch_test.MemoryLatency.Pattern.Rounds.{Shuffled, shuffle_loop-Shuffled, shuffle_loop-suc}

pick_far : (rand : ℕ → ℕ) (k drawn : ℕ) → 0 < k → (pick rand (suc k) drawn).0 < k
unfolding pick
pick_far rand k drawn h = ground arith

module _ (rand : ℕ → ℕ) (increment k : ℕ) (a : List ℕ) (drawn : ℕ) (pos : 0 < increment)
    (some_k : 0 < k) (few : suc (suc k) < 2 ^ 31) (fits : suc (suc k) * increment ≤ 2 ^ 32)
    (room : suc (suc k) * increment ≤ length a) where
  abbrev n : ℕ
  n = suc (suc k)

  abbrev partner : ℕ
  partner = (pick rand (suc k) drawn).0

  first : Identity increment n pos fits a (identity_loop increment n 0 a)
  first =
      identity_loop-Identity increment n pos fits n 0 a (omega arith) room
        (λ x h. absurd (omega arith))

  room' : n * increment ≤ length first.out
  room' = rw first.same_length room

  at_last : Link first.out (stride increment) (suc k) (suc k)
  at_last = first.links (suc k) (omega arith)

  at_partner : Link first.out (stride increment) partner partner
  at_partner = first.links partner (omega (arith, pick_far rand k drawn some_k))

  abbrev once : List ℕ
  once = swapped first.out increment (suc k) partner (suc k * increment) (partner * increment)

  rest :
      Shuffled increment n pos fits
        (suc k)
        once
        (shuffle_loop rand increment (suc k) once (pick rand (suc k) drawn).1)
  rest =
      shuffle_loop-Shuffled increment n pos fits rand (suc k) once (pick rand (suc k) drawn).1
        (omega arith) (omega arith) (rw (length-set, length-set) room')
        (join-Cycles increment n pos first.out (suc k) partner (suc k * increment)
          (partner * increment) (Cycles-identity increment n first.out first.links)
          (omega (arith, pick_far rand k drawn some_k)) (omega arith) at_last at_partner)

  -- With three elements or more, the last element never points to the one before it, whatever
  -- rand() returns: it points to an element below that one.
  pub fill_last :
      (out : List ℕ) × (drawn' : ℕ) × (y : ℕ) × (fill rand increment (suc (suc k)) a drawn
        ≡ some (out, drawn'))
      × Link out (stride increment) (suc k) y
      × (y < k)
  unfolding fill
  fill_last = (
    rest.out,
    rest.drawn',
    partner,
    rw (lt→ltb n (2 ^ 31) few, first.returns, ◌>>=◌)
        (shuffle_loop-suc increment n pos fits rand k first.out drawn (omega arith) room'
            (suc k * increment) (partner * increment) at_last at_partner
          ∙ rest.returns),
    rest.kept (suc k * increment) (λ x h. mul-ne x (suc k) increment pos (omega arith))
        ∙ swapped-i first.out increment (suc k) partner (suc k * increment) (partner * increment)
            pos (omega (arith, pick_far rand k drawn some_k)) at_last at_partner,
    pick_far rand k drawn some_k,
  )
