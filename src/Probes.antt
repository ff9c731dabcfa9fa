-- ===== src/Probes.antt =====
-- tools/riscv_cycle_probe.c, tools/riscv_cycle_time_probe.c and tools/riscv_counter_probe.c: the
-- differences of one, two and three hardware counters over a loop.
pub mod Laws
mod Tests
use u_arch_test.Prelude.{ℕ, zero, suc, ◌+◌, List, [], ◌∷◌, u64, sub64}

-- The counters that rdcycle, rdtime and rdinstret read.
pub data Counter : Type 0 where
  cycle time instret : Counter

-- `for (i = 0; i < 100000; ++i) sink += i;` on uint64_t, with `left` rounds to go.
pub sink_loop : (left i sink : ℕ) → ℕ
sink_loop zero i sink = sink
sink_loop (suc left) i sink = sink_loop left (u64 (i + 1)) (u64 (sink + i))

-- `printf("cycle=%llu,%llu,delta=%llu\n", cycle0, cycle1, cycle1 - cycle0)`
pub record CounterLine : Type 0 where
  pub counter : Counter
  pub before : ℕ
  pub after : ℕ
  pub delta : ℕ

pub counter_line : Counter → (before after : ℕ) → CounterLine
counter_line counter before after = record {
  counter = counter;
  before = before;
  after = after;
  delta = sub64 after before;
}

-- What a probe prints: `sink`, and a line for each counter. `reading k` is the result of the k-th
-- instruction of the program that reads a counter.
module _ (reading : ℕ → Counter → ℕ) where
  pub riscv_cycle_probe : ℕ × List CounterLine
  riscv_cycle_probe =
      (sink_loop 100000 0 0, counter_line cycle (reading 0 cycle) (reading 1 cycle) ∷ [])

  pub riscv_cycle_time_probe : ℕ × List CounterLine
  riscv_cycle_time_probe = (
    sink_loop 100000 0 0,
    counter_line cycle (reading 0 cycle) (reading 2 cycle)
        ∷ counter_line time (reading 1 time) (reading 3 time)
        ∷ [],
  )

  pub riscv_counter_probe : ℕ × List CounterLine
  riscv_counter_probe = (
    sink_loop 100000 0 0,
    counter_line cycle (reading 0 cycle) (reading 3 cycle)
        ∷ counter_line time (reading 1 time) (reading 4 time)
        ∷ counter_line instret (reading 2 instret) (reading 5 instret)
        ∷ [],
  )
