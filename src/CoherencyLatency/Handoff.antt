-- ===== src/CoherencyLatency/Handoff.antt =====
-- The invariant of the hand-over in CoherencyLatency/PThreadsCoherencyLatency.c: who may act when.
use u_arch_test.Prelude.{
  ℕ, ◌+◌, ◌*◌, ◌%◌, ◌^◌, ◌≤◌, ◌<◌, ◌≡◌, ◌↔◌, ◌&&◌, ◌==◌, ltb, if◌then◌else◌, Bool, true, false,
  List, [], ◌∷◌, arith,
}
use u_arch_test.CoherencyLatency.{State, init, attempt, step, run, finished}

-- `iterations` is small enough for the counters not to wrap.
abbrev pub IsSmall : ℕ → Type 0
IsSmall iterations = iterations < 2 ^ 62

-- The target counts the handovers; an even count waits for the first thread, an odd one for the
-- second.
pub record Inv (iterations : ℕ) (s : State) : Type 0 where
  pub bound : s.target ≤ 2 * iterations
  pub even : s.target % 2 ≡ 0 → (s.current1 ≡ s.target + 1) × (s.current2 ≡ s.target + 2)
  pub odd : s.target % 2 ≡ 1 → (s.current1 ≡ s.target + 2) × (s.current2 ≡ s.target + 1)

pub init-Inv : (iterations : ℕ) → Inv iterations init
init-Inv iterations = record {
  bound = omega arith;
  even = λ e. omega arith;
  odd = λ e. absurd (omega arith);
}

module _ (iterations : ℕ) (small : IsSmall iterations) where
  pub step-Inv :
      (who : Bool) (s : State) → Inv iterations s → Inv iterations (step iterations who s)
  unfolding step attempt
  step-Inv true s v = ground arith
  step-Inv false s v = ground arith

  -- In a state of the invariant, a step of the first thread hands over exactly if the count of
  -- handovers is even and below 2 * iterations, and one of the second exactly if it is odd.
  pub step_target :
      (who : Bool) (s : State)
      → Inv iterations s
      → (step iterations who s).target ≡ (
          if (s.target % 2 == (if who then 0 else 1)) && ltb s.target (2 * iterations)
          then s.target + 1
          else s.target)
  unfolding step attempt
  step_target true s v = ground arith
  step_target false s v = ground arith

  pub finished_lem :
      (s : State) → Inv iterations s → (finished iterations s ≡ true) ↔ (s.target ≡ 2 * iterations)
  unfolding finished
  finished_lem s v = ground arith

  pub run-Inv :
      (turns : List Bool) (s : State) → Inv iterations s → Inv iterations (run iterations turns s)
  unfolding run
  run-Inv [] s v = v
  run-Inv (who ∷ later) s v = run-Inv later (step iterations who s) (step-Inv who s v)
