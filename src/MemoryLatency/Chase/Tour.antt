-- ===== src/MemoryLatency/Chase/Tour.antt =====
-- A timed chase along a single cycle.
use u_arch_test.Prelude.{
  ℕ, ◌+◌, ◌^◌, ◌<◌, ◌≡◌, refl, sym, ap, ◌∙◌, get_elem?, List, Option, some, u32, arith, ◌>>=◌,
  lt→ltb,
}
use u_arch_test.Prelude.Int.{pos}
use u_arch_test.Timing.{elapsed_ns}
use u_arch_test.MemoryLatency.Machine.{Machine, Calls}
use u_arch_test.MemoryLatency.Pattern.Fill.{IsSingleCycle}
use u_arch_test.MemoryLatency.Chase.{Chased, timed_chase}
use u_arch_test.MemoryLatency.Chase.Laps.{visit, visit-zero, visit-Link, gathered, chase_loop-visit}

-- The chase over a single cycle of `n` elements ends after `rounds + 1` loads, the last of which
-- read load number `rounds` of the tour.
pub record Tours (slot : ℕ → ℕ) (n rounds : ℕ) (Real : Type 0) (a : List ℕ)
    (single : IsSingleCycle slot n a) (r : Option (Chased Real)) : Type 0 where
  pub out : Chased Real
  pub returns : r ≡ some out
  pub ends : out.current ≡ slot (visit slot n a single (rounds + 1))
  pub sums : out.sum ≡ u32 (gathered slot n a single rounds 1)

pub timed_chase-Tours :
    (m : Machine) (slot : ℕ → ℕ) (n rounds : ℕ) (a : List ℕ) (calls : Calls)
    → slot 0 ≡ 0
    → rounds < 2 ^ 31
    → (single : IsSingleCycle slot n a)
    → Tours slot n rounds m.floats.Real a single (timed_chase m a rounds calls)
unfolding timed_chase
timed_chase-Tours m slot n rounds a calls at_zero few single = record {
  out = record {
    current = slot (visit slot n a single (1 + rounds));
    sum = u32 (0 + gathered slot n a single rounds 1);
    latency =
        m.floats.div
          (m.floats.real
            (pos (elapsed_ns m.floats (m.clock calls.ticks) (m.clock (calls.ticks + 1)))))
          (m.floats.real (pos rounds));
    calls = record calls { ticks = calls.ticks + 2 };
  };
  returns =
      rw
        (
          lt→ltb rounds (2 ^ 31) few,
          ap (get_elem? a) (sym at_zero)
              ∙ ap (λ x. get_elem? a (slot x)) (sym (visit-zero slot n a single))
              ∙ visit-Link slot n a single 0,
          ◌>>=◌,
          chase_loop-visit slot n a single rounds 1 0,
        )
        refl;
  ends = ap (λ t. slot (visit slot n a single t)) (omega arith);
  sums = omega arith;
}
