-- ===== src/CoreClockChecker/Main.antt =====
-- The whole of main in CoreClockChecker/CoreClockChecker.c: the processor, the table of open files,
-- and the five modes. `none` is an access beyond the table of open files.
pub mod Laws
mod Tests
use u_arch_test.Prelude.{ℕ, ◌+◌, ◌*◌, Bool, true, false, List, Option, some, sub64, ◌>>=◌}
use u_arch_test.Prelude.Int.{pos, sub_ℕ, scale, quot, ◌+ℤ◌}
use u_arch_test.Timing.{Floats, Timeval}
use u_arch_test.CoreClockChecker.{
  Environment, State, set_boost, get_total_core_energy, get_pkg_energy_stat,
  get_energy_status_units,
}
use u_arch_test.CoreClockChecker.Power.{
  detect_cpu_maker, ClockMode, disable_boost, enable_boost, power, clocks, measure_cmd,
  mode_of_arguments, closed_fds, PowerLine, power_mode, clock_loop,
}
use Prim.Native.String.{String}

-- What the mode measurecmd prints, and the differences of the counters.
pub record Consumption (Real : Type 0) : Type 0 where
  pub core_energy : ℕ
  pub pkg_energy : ℕ
  pub core_joules : Real
  pub pkg_joules : Real
  pub seconds : Real

-- What main leaves: registers that were written, or what it printed.
pub data Shown (Real : Type 0) : Type 0 where
  boosted : State → Shown Real
  powers : List (PowerLine Real) → Shown Real
  consumed : Consumption Real → Shown Real
  speeds : List (ℕ × Real) → Shown Real

-- `system command registers` are the registers after the command has run, which is when the
-- counters are taken to move.
module _ (fl : Floats) (env : Environment) (system : String → (ℕ → ℕ → ℕ) → ℕ → ℕ → ℕ)
    (clktest : ℕ → (ℕ → ℕ → ℕ) → ℕ → ℕ → ℕ) (readings : ℕ → Timeval × Timeval) where
  -- `energy * energyUnits` on float.
  abbrev pub joules : (energy_units : fl.Real) (energy : ℕ) → fl.Real
  joules energy_units energy = fl.narrow (fl.mul (fl.narrow (fl.real (pos energy))) energy_units)

  -- `(double)time_diff_ms / 1000`
  abbrev pub seconds_of : Timeval × Timeval → fl.Real
  seconds_of (s, e) =
      fl.div (fl.real (scale 1000 (sub_ℕ e.sec s.sec) +ℤ quot (sub_ℕ e.usec s.usec) 1000))
        (fl.real (pos 1000))

  pub consumption : (energy_units : fl.Real) (core_energy pkg_energy : ℕ) → Consumption fl.Real
  consumption energy_units core_energy pkg_energy = record {
    core_energy = core_energy;
    pkg_energy = pkg_energy;
    core_joules = joules energy_units core_energy;
    pkg_joules = joules energy_units pkg_energy;
    seconds = seconds_of (readings 0);
  }

  module _ (amd_cpu : Bool) where
    -- The mode measurecmd, from the table with all files closed.
    pub measure_cmd_mode : (command : String) → State → Option (Consumption fl.Real)
    measure_cmd_mode command s = do
      (energy_units, s0) ← get_energy_status_units env fl amd_cpu s
      (start_energy, s1) ← get_total_core_energy env amd_cpu s0
      (start_pkg_energy, s2) ← get_pkg_energy_stat env amd_cpu 0 s1
      let ran = record s2 { registers = system command s2.registers }
      (end_energy, s3) ← get_total_core_energy env amd_cpu ran
      (end_pkg_energy, s4) ← get_pkg_energy_stat env amd_cpu 0 s3
      some (
          consumption energy_units (sub64 end_energy start_energy)
            (sub64 end_pkg_energy start_pkg_energy))

    pub run_mode : ClockMode → (num_procs : ℕ) (registers : ℕ → ℕ → ℕ) → Option (Shown fl.Real)
    run_mode disable_boost num_procs registers =
        set_boost env false num_procs (closed_fds num_procs registers) >>= λ s. some (boosted s)
    run_mode enable_boost num_procs registers =
        set_boost env true num_procs (closed_fds num_procs registers) >>= λ s. some (boosted s)
    run_mode power num_procs registers =
        power_mode fl env clktest readings amd_cpu num_procs registers >>= λ lines.
        some (powers lines)
    run_mode (measure_cmd command) num_procs registers =
        measure_cmd_mode command (closed_fds num_procs registers) >>= λ c. some (consumed c)
    run_mode clocks num_procs registers = some (speeds (clock_loop fl readings num_procs 0))

  pub main :
      (arguments : List String) (cpuid_ebx cpuid_edx cpuid_ecx num_procs : ℕ)
      (registers : ℕ → ℕ → ℕ)
      → Option (Shown fl.Real)
  main arguments cpuid_ebx cpuid_edx cpuid_ecx num_procs registers =
      run_mode (detect_cpu_maker cpuid_ebx cpuid_edx cpuid_ecx) (mode_of_arguments arguments)
        num_procs registers
