-- ===== src/CoherencyLatency/Rounds.antt =====
-- Schedules of CoherencyLatency/PThreadsCoherencyLatency.c: rounds of turns, and one thread alone.
use u_arch_test.Prelude.{
  ℕ, zero, suc, ◌+◌, ◌*◌, ◌%◌, ◌≤◌, ◌<◌, ◌≡◌, ◌↔◌, refl, Bool, true, false, not, ◌||◌, ◌==◌, ltb,
  ltb→lt, Bool-cases, ◌⊎◌, inl, inr, if◌then◌else◌, List, [], ◌∷◌, ◌++◌, All, length, replicate,
  arith,
}
use u_arch_test.CoherencyLatency.{State, init, step, run, running, finished}
use u_arch_test.CoherencyLatency.Handoff.{
  IsSmall, Inv, init-Inv, step-Inv, step_target, run-Inv, finished_lem,
}

-- Whether a thread has a turn.
abbrev pub has_turn : Bool → List Bool → Bool
has_turn who [] = false
has_turn true (turn ∷ later) = turn || has_turn true later
has_turn false (turn ∷ later) = not turn || has_turn false later

-- A round gives each thread at least one turn.
abbrev pub IsRound : List Bool → Type 0
IsRound turns = (has_turn true turns ≡ true) × (has_turn false turns ≡ true)

abbrev pub join : List (List Bool) → List Bool
join [] = []
join (r ∷ rs) = r ++ join rs

-- The thread that can hand over next.
abbrev next_thread : State → Bool
next_thread s = s.target % 2 == 0

module _ (iterations : ℕ) (small : IsSmall iterations) where
  run-append :
      (xs ys : List Bool) (s : State)
      → run iterations (xs ++ ys) s ≡ run iterations ys (run iterations xs s)
  unfolding run
  run-append [] ys s = refl
  run-append (x ∷ xs) ys s = run-append xs ys (step iterations x s)

  run_mono :
      (turns : List Bool) (s : State)
      → Inv iterations s
      → s.target ≤ (run iterations turns s).target
  unfolding run
  run_mono [] s v = omega arith
  run_mono (who ∷ later) s v = ground (
    arith,
    step_target iterations small who s v,
    run_mono later (step iterations who s) (step-Inv iterations small who s v),
  )

  run_progress :
      (turns : List Bool) (s : State)
      → Inv iterations s
      → s.target < 2 * iterations
      → has_turn (next_thread s) turns ≡ true
      → s.target < (run iterations turns s).target
  unfolding run
  run_progress [] s v more turn = cc
  run_progress (who ∷ later) s v more turn =
      let s' = step iterations who s in
      let v' : Inv iterations s' = step-Inv iterations small who s v in
      progress who later s v more turn (run_mono later s' v')
        (λ more' turn'. run_progress later s' v' more' turn')
    where
      progress :
          (who : Bool) (later : List Bool) (s : State)
          → Inv iterations s
          → s.target < 2 * iterations
          → has_turn (next_thread s) (who ∷ later) ≡ true
          → (step iterations who s).target ≤ (run iterations later (step iterations who s)).target
          → ((step iterations who s).target < 2 * iterations
              → has_turn (next_thread (step iterations who s)) later ≡ true
              → (step iterations who s).target
                < (run iterations later (step iterations who s)).target)
          → s.target < (run iterations later (step iterations who s)).target
      progress true later s v more turn mono ih =
          ground (arith, step_target iterations small true s v)
      progress false later s v more turn mono ih =
          ground (arith, step_target iterations small false s v)

  rounds_progress :
      (rounds : List (List Bool)) (s : State)
      → Inv iterations s
      → All IsRound rounds
      → 2 * iterations ≤ s.target + length rounds
      → (run iterations (join rounds) s).target ≡ 2 * iterations
  rounds_progress [] s v fair enough = unfold run in omega (arith, v.bound)
  rounds_progress (r ∷ rs) s v fair enough = rw (run-append r (join rs) s) (
      rounds_progress rs (run iterations r s) (run-Inv iterations small r s v) fair.1
        (gain (Bool-cases (next_thread s)) (Bool-cases (ltb s.target (2 * iterations)))))
    where
      gain :
          (next_thread s ≡ true) ⊎ (next_thread s ≡ false)
          → (ltb s.target (2 * iterations) ≡ true) ⊎ (ltb s.target (2 * iterations) ≡ false)
          → 2 * iterations ≤ (run iterations r s).target + length rs
      gain (inl e) (inl more) = omega (arith, run_progress r s v (ltb→lt _ _ more) (rw e fair.0.0))
      gain (inr e) (inl more) = omega (arith, run_progress r s v (ltb→lt _ _ more) (rw e fair.0.1))
      gain _ (inr done) = ground (arith, run_mono r s v)

  -- The two threads end under every schedule of 2 * iterations rounds in each of which both have a
  -- turn, in any order and any number, if 2 * iterations does not come near 2 ^ 64: both loops are
  -- over, and the line has changed hands exactly 2 * iterations times.
  pub rounds-finished :
      (rounds : List (List Bool))
      → All IsRound rounds
      → 2 * iterations ≤ length rounds
      → (finished iterations (run iterations (join rounds) init) ≡ true)
        × ((run iterations (join rounds) init).target ≡ 2 * iterations)
  rounds-finished rounds fair enough = (
    (finished_lem iterations small _
          (run-Inv iterations small (join rounds) init (init-Inv iterations))).1
        count,
    count,
  )
    where
      count : (run iterations (join rounds) init).target ≡ 2 * iterations
      count = rounds_progress rounds init (init-Inv iterations) fair (omega arith)

  -- Whatever the schedule, the target never passes 2 * iterations, and the loops are over exactly
  -- when it has reached that.
  pub run-finished :
      (turns : List Bool)
      → ((run iterations turns init).target ≤ 2 * iterations)
        × ((finished iterations (run iterations turns init) ≡ true)
            ↔ ((run iterations turns init).target ≡ 2 * iterations))
  run-finished turns =
      let v = run-Inv iterations small turns init (init-Inv iterations) in
      (v.bound, finished_lem iterations small (run iterations turns init) v)

  -- A thread that is left alone hands over at most once, and only if it is the first.
  solo_target :
      (k : ℕ) (who : Bool) (s : State)
      → Inv iterations s
      → s.target ≤ (if who then 1 else 0)
      → (run iterations (replicate k who) s).target ≤ (if who then 1 else 0)
  unfolding run
  solo_target zero who s v h = h
  solo_target (suc k) true s v h =
      solo_target k true (step iterations true s) (step-Inv iterations small true s v)
        (ground (arith, step_target iterations small true s v))
  solo_target (suc k) false s v h =
      solo_target k false (step iterations false s) (step-Inv iterations small false s v)
        (ground (arith, step_target iterations small false s v))

  -- If only one of the two threads could be created, it spins forever: with two iterations or more,
  -- no number of its own turns ends its loop.
  pub solo_spins :
      (k : ℕ)
      → 2 ≤ iterations
      → (running iterations (run iterations (replicate k true) init).current1 ≡ true)
        × (running iterations (run iterations (replicate k false) init).current2 ≡ true)
  solo_spins k some_rounds = (first_alone, second_alone)
    where
      first_alone : running iterations (run iterations (replicate k true) init).current1 ≡ true
      first_alone = ground (
        arith,
        solo_target k true init (init-Inv iterations),
        run-Inv iterations small (replicate k true) init (init-Inv iterations),
      )

      second_alone : running iterations (run iterations (replicate k false) init).current2 ≡ true
      second_alone = ground (
        arith,
        solo_target k false init (init-Inv iterations),
        run-Inv iterations small (replicate k false) init (init-Inv iterations),
      )
