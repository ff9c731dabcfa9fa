-- ===== src/Probes/Tests.antt =====
-- Counters that pass 2 ^ 64 while a probe runs.
use u_arch_test.Prelude.{ℕ, ◌+◌, ◌-◌, ◌*◌, ◌^◌, ◌≤◌, ◌≡◌, refl, [], ◌∷◌, u64, arith}
use u_arch_test.Probes.{
  Counter, cycle, time, instret, sink_loop, riscv_cycle_probe, riscv_cycle_time_probe,
  riscv_counter_probe,
}
use u_arch_test.Probes.Laws.{says, probes_lem}

-- 0 + 1 + 2 + 3 + 4
sink_loop_run : sink_loop 5 0 0 ≡ 10
unfolding sink_loop
sink_loop_run = refl

abbrev near_the_end : ℕ → Counter → ℕ
near_the_end k c = u64 (2 ^ 64 - 70 + 50 * k)

abbrev fifty_each : (from to : ℕ) → Counter → ℕ
fifty_each from to c = u64 (50 * (to - from))

fifty_lem :
    (from to : ℕ) (c : Counter)
    → from ≤ to
    → near_the_end to c ≡ u64 (near_the_end from c + fifty_each from to c)
fifty_lem from to c le = omega arith

probes_lem_example :
    (riscv_cycle_probe near_the_end ≡ (4999950000, says near_the_end fifty_each cycle 0 1 ∷ []))
    × (riscv_cycle_time_probe near_the_end ≡ (
      4999950000,
      says near_the_end fifty_each cycle 0 2 ∷ says near_the_end fifty_each time 1 3 ∷ [],
    ))
    × (riscv_counter_probe near_the_end ≡ (
      4999950000,
      says near_the_end fifty_each cycle 0 3
          ∷ says near_the_end fifty_each time 1 4
          ∷ says near_the_end fifty_each instret 2 5
          ∷ [],
    ))
probes_lem_example =
    probes_lem near_the_end fifty_each (λ k c. omega arith) (λ from to c. omega arith) fifty_lem
