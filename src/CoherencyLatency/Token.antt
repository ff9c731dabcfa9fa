-- ===== src/CoherencyLatency/Token.antt =====
-- What CoherencyLatency/PThreadsCoherencyLatency.c promises, without its shared word and counters:
-- a token that two threads pass to each other a given number of times.
use u_arch_test.Prelude.{
  ℕ, ◌+◌, ◌-◌, ◌*◌, ◌%◌, ◌≡◌, ◌≢◌, ◌↔◌, ap, subst, ◌⊎◌, inl, inr, ◌&&◌, ◌==◌, ltb, if◌then◌else◌,
  Bool, true, false, not, Bool-cases, List, [], ◌∷◌, arith,
}
use u_arch_test.CoherencyLatency.{State, init, step, run, finished}
use u_arch_test.CoherencyLatency.Handoff.{
  IsSmall, Inv, init-Inv, step-Inv, step_target, run-Inv, finished_lem,
}

-- Who has the token (`true` is the first thread), and how often it is still to be passed.
pub record Token : Type 0 where
  pub holder : Bool
  pub left : ℕ

-- What a turn of a thread can do to the token: the holder passes it to the other thread as long as
-- it is to be passed, and every other turn changes nothing.
pub data Turn (who : Bool) (t u : Token) : Type 0 where
  hands_over : t.holder ≡ who → t.left ≡ u.left + 1 → u.holder ≡ not who → Turn who t u
  waits : (t.holder ≢ who) ⊎ (t.left ≡ 0) → u ≡ t → Turn who t u

pub data Turns : List Bool → Token → Token → Type 0 where
  over : {t : Token} → Turns [] t t
  turn :
      {who : Bool} {later : List Bool} {t u v : Token}
      → Turn who t u
      → Turns later u v
      → Turns (who ∷ later) t v

module _ (iterations : ℕ) (small : IsSmall iterations) where
  -- The token in a state: an even count of handovers waits for the first thread.
  abbrev pub token_of : State → Token
  token_of s = record { holder = s.target % 2 == 0; left = 2 * iterations - s.target }

  abbrev due : Bool → State → Bool
  due who s = (s.target % 2 == (if who then 0 else 1)) && ltb s.target (2 * iterations)

  idle :
      (who : Bool) (s : State)
      → due who s ≡ false
      → ((token_of s).holder ≢ who) ⊎ ((token_of s).left ≡ 0)
  idle true s e = elim (Bool-cases (ltb s.target (2 * iterations))) [
    | inl more ↦ inl (λ h. ground (arith, e, more, h))
    | inr done ↦ inr (ground (arith, done))
  ]
  idle false s e = elim (Bool-cases (ltb s.target (2 * iterations))) [
    | inl more ↦ inl (λ h. ground (arith, e, more, h))
    | inr done ↦ inr (ground (arith, done))
  ]

  step-Turn :
      (who : Bool) (s : State)
      → Inv iterations s
      → Turn who (token_of s) (token_of (step iterations who s))
  step-Turn who s v = elim (Bool-cases (due who s)) [
    | inl e ↦
        hands_over (ground (arith, e)) (ground (arith, e, step_target iterations small who s v))
          (ground (arith, e, step_target iterations small who s v))
    | inr e ↦ waits (idle who s e) (
        ap (λ n. record { holder = n % 2 == 0; left = 2 * iterations - n })
          (ground (arith, e, step_target iterations small who s v)))
  ]

  run-Turns :
      (turns : List Bool) (s : State)
      → Inv iterations s
      → Turns turns (token_of s) (token_of (run iterations turns s))
  unfolding run
  run-Turns [] s v = over
  run-Turns (who ∷ later) s v =
      turn (step-Turn who s v)
        (run-Turns later (step iterations who s) (step-Inv iterations small who s v))

  -- The hand-over protocol implements the token: whatever the schedule, below 2 ^ 62 iterations, the
  -- turns of the two threads are turns of a token that the first thread has at the start and that
  -- is passed 2 * iterations times, from one thread to the other and back; and both loops are over
  -- exactly if it is passed no more.
  pub run_refines :
      (turns : List Bool)
      → Turns turns
          (record { holder = true; left = 2 * iterations })
          (token_of (run iterations turns init))
        × ((finished iterations (run iterations turns init) ≡ true)
            ↔ ((token_of (run iterations turns init)).left ≡ 0))
  run_refines turns =
      let v = run-Inv iterations small turns init (init-Inv iterations) in
      let ends = finished_lem iterations small (run iterations turns init) v in
      (
        subst
            (λ n.
              Turns turns (record { holder = true; left = n })
                (token_of (run iterations turns init)))
            (omega arith) (run-Turns turns init (init-Inv iterations)),
        (λ e. omega (arith, ends.0 e), λ e. ends.1 (omega (arith, v.bound))),
      )
