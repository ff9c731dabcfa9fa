-- ===== src/MemoryLatency/Machine.antt =====
-- What the latency tests take from outside: rand(), malloc, the clock, floating point.
use u_arch_test.Prelude.{ℕ, ◌≡◌, List, Option, some, length}
use u_arch_test.Timing.{Floats, Timespec}

-- `rand k` is the result of the k-th call of rand(), `malloc k n` that of the k-th call of malloc
-- for `n` slots (`none` is NULL), `clock k` the k-th reading of CLOCK_MONOTONIC.
pub record Machine : Type 1 where
  pub floats : Floats
  pub rand : ℕ → ℕ
  pub malloc : ℕ → ℕ → Option (List ℕ)
  pub clock : ℕ → Timespec

-- How many calls of each have been made.
pub record Calls : Type 0 where
  pub drawn : ℕ
  pub allocated : ℕ
  pub ticks : ℕ

-- A block that malloc returns has the slots that were asked for.
pub record IsLawful (m : Machine) : Type 0 where
  pub block : (k n : ℕ) (a : List ℕ) → m.malloc k n ≡ some a → length a ≡ n
