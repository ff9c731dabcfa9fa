-- ===== src/CoreClockChecker/Main/Laws.antt =====
-- The mode measurecmd of CoreClockChecker/CoreClockChecker.c, from the command line on.
use u_arch_test.Prelude.{
  ℕ, zero, suc, ◌+◌, ◌≤◌, ◌<◌, ◌≡◌, Bool, true, false, Option, some, sub64, u64,
}
use u_arch_test.Prelude.Int.{pos, sub_ℕ, scale, quot, ◌+ℤ◌}
use u_arch_test.Timing.{Floats, Timeval}
use u_arch_test.CoreClockChecker.{
  Environment, State, msr_core_energy_stat, intel_msr_pp0_energy_status,
}
use u_arch_test.CoreClockChecker.Laws.{IsTidy}
use u_arch_test.CoreClockChecker.Power.Laws.{pkg_counter, energy_unit}
use u_arch_test.CoreClockChecker.Main.{Consumption}
use Prim.Native.String.{String}

-- The plain sum of the counters of cores.
pub energy_sum : (registers : ℕ → ℕ → ℕ) (left i : ℕ) → ℕ
energy_sum registers zero i = 0
energy_sum registers (suc left) i =
    registers i msr_core_energy_stat + energy_sum registers left (i + 1)

-- On AMD the sum of the counters of the first 16 cores, on Intel the one counter that core 0 has.
abbrev pub total_energy : (amd_cpu : Bool) (registers : ℕ → ℕ → ℕ) → ℕ
total_energy true registers = u64 (energy_sum registers 16 0)
total_energy false registers = registers 0 intel_msr_pp0_energy_status

module _ (fl : Floats) (env : Environment) (opens : (core : ℕ) → env.opens core ≡ true)
    (system : String → (ℕ → ℕ → ℕ) → ℕ → ℕ → ℕ) (clktest : ℕ → (ℕ → ℕ → ℕ) → ℕ → ℕ → ℕ)
    (readings : ℕ → Timeval × Timeval) (n : ℕ) where
  -- The joules of a number of steps, and the seconds between the two readings of the clock.
  abbrev pub joules_of : (unit : fl.Real) (steps : ℕ) → fl.Real
  joules_of unit steps = fl.narrow (fl.mul (fl.narrow (fl.real (pos steps))) unit)

  abbrev pub elapsed_seconds : fl.Real
  elapsed_seconds =
      let (s, e) = readings 0 in
      fl.div (fl.real (scale 1000 (sub_ℕ e.sec s.sec) +ℤ quot (sub_ℕ e.usec s.usec) 1000))
        (fl.real (pos 1000))

  record Totals (total : ℕ) (s : State) (r : Option (ℕ × State)) : Type 0 where
    after : State
    returns : r ≡ some (total, after)
    same : after.registers ≡ s.registers
    tidy : IsTidy n after

  module _ (amd_cpu : Bool) (some_cores : 0 < n) (many : amd_cpu ≡ true → 16 ≤ n) where
    -- The differences of the counters over the run of the command.
    record Measured (command : String) (s : State) (r : Option (Consumption fl.Real)) : Type 0 where
      result : Consumption fl.Real
      returns : r ≡ some result
      cores :
          result.core_energy
          ≡ sub64
              (total_energy amd_cpu (system command s.registers))
              (total_energy amd_cpu s.registers)
      whole :
          result.pkg_energy
          ≡ sub64
              (system command s.registers 0 (pkg_counter amd_cpu))
              (s.registers 0 (pkg_counter amd_cpu))
      shows_cores :
          result.core_joules
          ≡ joules_of
              (energy_unit fl env opens clktest readings amd_cpu n s.registers)
              result.core_energy
      shows_whole :
          result.pkg_joules
          ≡ joules_of
              (energy_unit fl env opens clktest readings amd_cpu n s.registers)
              result.pkg_energy
      shows_seconds : result.seconds ≡ elapsed_seconds
