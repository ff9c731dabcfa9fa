-- ===== src/CoherencyLatency.antt =====
-- CoherencyLatency/PThreadsCoherencyLatency.c: two threads that hand a cache line back and forth.
-- Each thread's only shared access is the compare-and-swap, so a step of the system is one test of
-- a thread's loop with the attempt that follows it.
pub mod Handoff
pub mod Rounds
pub mod Token
pub mod Options
pub mod Main
mod Tests
use u_arch_test.Prelude.{
  ℕ, ◌+◌, ◌*◌, ltb, leb, ◌==◌, if◌then◌else◌, Bool, true, false, List, [], ◌∷◌, u64, sub64,
}
use u_arch_test.Prelude.Int.{pos}
use u_arch_test.Timing.{Floats, Timeval, elapsed_ms}

-- The shared word, and the local `current` of each thread. Both threads have the same `iterations`.
pub record State : Type 0 where
  pub target : ℕ
  pub current1 : ℕ
  pub current2 : ℕ

-- RunTest: `*bouncy = 0`, `lat1.start = 1`, `lat2.start = 2`.
abbrev pub init : State
init = record { target = 0; current1 = 1; current2 = 2 }

module _ (iterations : ℕ) where
  -- `current <= 2 * latencyData->iterations`
  abbrev pub running : ℕ → Bool
  running current = leb current (u64 (2 * iterations))

  -- One test of the loop in LatencyTestThread and one compare-and-swap: the new value of the
  -- target and of `current`.
  pub attempt : (target current : ℕ) → ℕ × ℕ
  attempt target current =
      if running current
      then if target == sub64 current 1 then (current, u64 (current + 2)) else (target, current)
      else (target, current)

  -- A step of the first thread (`true`) or of the second.
  pub step : Bool → State → State
  step true s = let (t, c) = attempt s.target s.current1 in record s { target = t; current1 = c }
  step false s = let (t, c) = attempt s.target s.current2 in record s { target = t; current2 = c }

  -- The threads take turns in the order of the schedule.
  pub run : List Bool → State → State
  run [] s = s
  run (who ∷ later) s = run later (step who s)

  -- Both loops have ended, so that both joins return.
  pub finished : State → Bool
  finished s = if running s.current1 then false else (if running s.current2 then false else true)

-- TimeThreads, with the results of the two pthread_create calls and the readings of the clock: 0 if
-- a thread could not be created, and else `1e6 * (float)time_diff_ms / (float)iter`.
pub time_threads : (fl : Floats) (iterations t1rc t2rc : ℕ) (start end : Timeval) → fl.Real
time_threads fl iterations t1rc t2rc start end =
    if t1rc == 0
    then (if t2rc == 0
        then fl.narrow (
            fl.div
              (fl.mul (fl.real (pos 1000000)) (fl.narrow (fl.real (pos (elapsed_ms start end)))))
              (fl.narrow (fl.real (pos iterations))))
        else fl.real (pos 0))
    else fl.real (pos 0)
