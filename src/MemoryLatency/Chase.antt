-- ===== src/MemoryLatency/Chase.antt =====
-- The timed loop of RunTest and RunTlbTest in MemoryLatency/MemoryLatency.c: a pointer chase.
pub mod Laps
pub mod Tour
use u_arch_test.Prelude.{
  ℕ, zero, suc, ◌+◌, ◌*◌, ◌^◌, ltb, if◌then◌else◌, List, Option, none, some, get_elem?, u32, ◌>>=◌,
}
use u_arch_test.Prelude.Int.{pos}
use u_arch_test.Timing.{Floats, elapsed_ns}
use u_arch_test.MemoryLatency.Machine.{Machine, Calls}

-- `{ current = A[current]; sum += current; }`, `left` times
pub chase_loop : (left : ℕ) → List ℕ → (current sum : ℕ) → Option (ℕ × ℕ)
chase_loop zero a current sum = some (current, sum)
chase_loop (suc left) a current sum = do
  next ← get_elem? a current
  chase_loop left a next (u32 (sum + next))

-- `10 * iterations / pow(size_kb, 1.0 / 4.0)`; the product is a uint32_t.
unfoldable pub scale_iterations : (fl : Floats) (size_kb iterations : ℕ) → ℕ
scale_iterations fl size_kb iterations = fl.truncate (
    fl.div (fl.real (pos (u32 (10 * iterations))))
      (fl.pow (fl.real (pos size_kb)) (fl.div (fl.real (pos 1)) (fl.real (pos 4)))))

-- What is left of a timed chase: where it ended, its checksum, and the latency per load.
pub record Chased (Real : Type 0) : Type 0 where
  pub current : ℕ
  pub sum : ℕ
  pub latency : Real
  pub calls : Calls

-- From the first reading of the clock to `latency`. The counter is an `int`: a number of rounds
-- from 2 ^ 31 on overflows it.
pub timed_chase :
    (m : Machine) → List ℕ → (scaled_iterations : ℕ) → Calls → Option (Chased (m.floats.Real))
timed_chase m a scaled_iterations calls =
    if ltb scaled_iterations (2 ^ 31)
    then (do
      first ← get_elem? a 0
      (current, sum) ← chase_loop scaled_iterations a first 0
      let elapsed = elapsed_ns m.floats (m.clock calls.ticks) (m.clock (calls.ticks + 1))
      some (record {
        current = current;
        sum = sum;
        latency =
            m.floats.div (m.floats.real (pos elapsed)) (m.floats.real (pos scaled_iterations));
        calls = record calls { ticks = calls.ticks + 2 };
      }))
    else none
