-- ===== src/CoreClockChecker/Power/Laws.antt =====
-- The processor that CoreClockChecker/CoreClockChecker.c detects, and the lines of its mode `power`.
use u_arch_test.Prelude.{
  ℕ, zero, suc, ◌/◌, ◌%◌, ◌^◌, ◌<◌, ◌≡◌, inl, refl, sym, ap, if◌then◌else◌, Bool, true, Option,
  some, get_elem?, length-replicate, replicate, sub64, ◌>>=◌,
}
use u_arch_test.Timing.{Floats, Timeval}
use u_arch_test.Prelude.Int.{pos, sub_ℕ, scale, quot, ◌+ℤ◌}
use u_arch_test.CoreClockChecker.{
  msr_rapl_pwr_unit, intel_msr_rapl_pwr_unit, Fd, closed, file, Environment, State,
  msr_core_energy_stat, intel_msr_pp0_energy_status, msr_pkg_energy_stat,
  intel_msr_pkg_energy_status, read_msr, get_core_energy_stat, get_pkg_energy_stat,
  get_energy_status_units,
}
use u_arch_test.CoreClockChecker.Laws.{IsTidy, ensure_open-Open}
use u_arch_test.CoreClockChecker.Power.{PowerLine, closed_fds}
use mathlib.Core.Option.{some-injective, none-ne-some}

-- The registers of the two energy counters.
abbrev pub core_counter : (amd_cpu : Bool) → ℕ
core_counter amd_cpu = if amd_cpu then msr_core_energy_stat else intel_msr_pp0_energy_status

abbrev pub pkg_counter : (amd_cpu : Bool) → ℕ
pkg_counter amd_cpu = if amd_cpu then msr_pkg_energy_stat else intel_msr_pkg_energy_status

module _ (fl : Floats) (env : Environment) (opens : (core : ℕ) → env.opens core ≡ true)
    (clktest : ℕ → (ℕ → ℕ → ℕ) → ℕ → ℕ → ℕ) (readings : ℕ → Timeval × Timeval) (amd_cpu : Bool)
    (n : ℕ) where
  -- A counter is read through the open file, and no register changes.
  pub record Reads (i addr : ℕ) (s : State) (r : Option (ℕ × State)) : Type 0 where
    pub after : State
    pub returns : r ≡ some (s.registers i addr, after)
    pub same : after.registers ≡ s.registers
    pub tidy : IsTidy n after

  pub get_core_energy_stat-Reads :
      (i : ℕ) (s : State)
      → i < n
      → IsTidy n s
      → Reads i (core_counter amd_cpu) s (get_core_energy_stat env amd_cpu i s)
  unfolding get_core_energy_stat read_msr
  get_core_energy_stat-Reads i s lt tidy =
      let o = ensure_open-Open env opens n i s lt tidy in
      record {
        after = o.after;
        returns =
            rw (o.returns, ◌>>=◌)
              (ap (λ (r : ℕ → ℕ → ℕ). some (r i (core_counter amd_cpu), o.after)) o.same);
        same = o.same;
        tidy = o.tidy;
      }

  pub get_pkg_energy_stat-Reads :
      (i : ℕ) (s : State)
      → i < n
      → IsTidy n s
      → Reads i (pkg_counter amd_cpu) s (get_pkg_energy_stat env amd_cpu i s)
  unfolding get_pkg_energy_stat read_msr
  get_pkg_energy_stat-Reads i s lt tidy =
      let o = ensure_open-Open env opens n i s lt tidy in
      record {
        after = o.after;
        returns =
            rw (o.returns, ◌>>=◌)
              (ap (λ (r : ℕ → ℕ → ℕ). some (r i (pkg_counter amd_cpu), o.after)) o.same);
        same = o.same;
        tidy = o.tidy;
      }

  -- The joules that a step of the counters stands for: a power of a half, whose exponent is in bits 8
  -- to 12 of the register for the units.
  abbrev pub energy_unit : (ℕ → ℕ → ℕ) → fl.Real
  energy_unit r =
      let addr = if amd_cpu then msr_rapl_pwr_unit else intel_msr_rapl_pwr_unit in
      fl.narrow (
        fl.pow (fl.div (fl.real (pos 1)) (fl.real (pos 2)))
          (fl.real (pos (r 0 addr / 2 ^ 8 % 2 ^ 5))))

  -- The watts of a number of steps between the two readings of the clock of run i, whose whole
  -- seconds count.
  abbrev pub watts : (unit : fl.Real) (i steps : ℕ) → fl.Real
  watts unit i steps =
      let (s, e) = readings i in
      let ms = scale 1000 (sub_ℕ e.sec s.sec) +ℤ quot (sub_ℕ e.usec s.usec) 1000 in
      let joules = fl.narrow (fl.mul (fl.narrow (fl.real (pos steps))) unit) in
      fl.narrow (fl.div joules (fl.narrow (fl.real (quot ms 1000))))

  -- What a line says of its core, between the registers before and after its run.
  pub record IsLine (unit : fl.Real) (i : ℕ) (start end : ℕ → ℕ → ℕ) (line : PowerLine fl.Real)
      : Type 0 where
    pub of_core : line.core ≡ i
    pub of_cores :
        line.core_energy ≡ sub64 (end i (core_counter amd_cpu)) (start i (core_counter amd_cpu))
    pub of_package :
        line.pkg_energy ≡ sub64 (end i (pkg_counter amd_cpu)) (start i (pkg_counter amd_cpu))
    pub shows_core : line.core_power ≡ watts unit i line.core_energy
    pub shows_package : line.pkg_power ≡ watts unit i line.pkg_energy

  -- The registers before the k-th run, from those at the start.
  pub registers_at : (registers : ℕ → ℕ → ℕ) → ℕ → ℕ → ℕ → ℕ
  registers_at registers zero = registers
  registers_at registers (suc k) = clktest k (registers_at registers k)

  -- A line for core k, between the registers before and after the k-th run.
  abbrev pub SaysCore : (registers : ℕ → ℕ → ℕ) (k : ℕ) → PowerLine fl.Real → Type 0
  SaysCore registers k line =
      IsLine (energy_unit registers) k (registers_at registers k) (registers_at registers (suc k))
        line

  module _ (units : fl.Real) where
    record Measures (i : ℕ) (s : State) (r : Option (PowerLine fl.Real × State)) : Type 0 where
      line : PowerLine fl.Real
      after : State
      returns : r ≡ some (line, after)
      moved : after.registers ≡ clktest i s.registers
      tidy : IsTidy n after
      said : IsLine units i s.registers (clktest i s.registers) line

  get_elem?-replicate :
      (m k : ℕ) (fd : Fd) → get_elem? (replicate m closed) k ≡ some fd → fd ≡ closed
  get_elem?-replicate zero k fd e = absurd (none-ne-some fd e)
  get_elem?-replicate (suc m) zero fd e = sym (some-injective closed fd e)
  get_elem?-replicate (suc m) (suc k) fd e = get_elem?-replicate m k fd e

  pub closed_fds-IsTidy : (registers : ℕ → ℕ → ℕ) → IsTidy n (closed_fds n registers)
  unfolding closed_fds
  closed_fds-IsTidy registers = record {
    size = length-replicate n closed;
    entry = λ k fd e. inl (get_elem?-replicate n k fd e);
  }

  -- The unit of the counters can be read, and no register changes.
  pub status_units :
      (s : State)
      → 0 < n
      → IsTidy n s
      → (units : fl.Real) × (after : State) × (get_energy_status_units env fl amd_cpu s
          ≡ some (units, after))
        × (after.registers ≡ s.registers)
        × IsTidy n after
        × (units ≡ energy_unit s.registers)
  unfolding get_energy_status_units read_msr
  status_units s some_cores tidy =
      let o = ensure_open-Open env opens n 0 s some_cores tidy in
      let addr = if amd_cpu then msr_rapl_pwr_unit else intel_msr_rapl_pwr_unit in
      let exponent = read_msr env (file 0) addr o.after / 2 ^ 8 % 2 ^ 5 in
      (
        fl.narrow (fl.pow (fl.div (fl.real (pos 1)) (fl.real (pos 2))) (fl.real (pos exponent))),
        o.after,
        rw (o.returns, ◌>>=◌) refl,
        o.same,
        o.tidy,
        ap energy_unit o.same,
      )
