-- ===== src/CoreClockChecker.antt =====
-- The model specific registers of CoreClockChecker/CoreClockChecker.c: the table of open files, and
-- the reads and writes that go through it.
pub mod Laws
pub mod Energy
pub mod Power
pub mod Main
pub mod Tests
use u_arch_test.Prelude.Int.{pos}
use u_arch_test.Timing.{Floats}
use u_arch_test.Prelude.{
  ℕ, zero, suc, ◌+◌, ◌-◌, ◌/◌, ◌%◌, ◌^◌, ◌==◌, if◌then◌else◌, Bool, true, false, ◌&&◌, List, Option,
  none, some, get_elem?, u64, store, ◌>>=◌,
}

-- HWCR and the two registers of energy counts of a core.
abbrev pub hwcr : ℕ
hwcr = 0xc001_0015

abbrev pub msr_core_energy_stat : ℕ
msr_core_energy_stat = 0xc001_029a

abbrev pub intel_msr_pp0_energy_status : ℕ
intel_msr_pp0_energy_status = 0x639

-- Those of the package's energy count, and of the unit of all counts.
abbrev pub msr_pkg_energy_stat : ℕ
msr_pkg_energy_stat = 0xc001_029b

abbrev pub intel_msr_pkg_energy_status : ℕ
intel_msr_pkg_energy_status = 0x611

abbrev pub msr_rapl_pwr_unit : ℕ
msr_rapl_pwr_unit = 0xc001_0299

abbrev pub intel_msr_rapl_pwr_unit : ℕ
intel_msr_rapl_pwr_unit = 0x606

-- An entry of `msrFds`: 0, -1, or the open file of a core's registers.
pub data Fd : Type 0 where
  closed failed : Fd
  file : (core : ℕ) → Fd

-- `opens core`: whether the file of a core can be opened; `accepts core addr`: whether a write to a
-- register takes effect; `unread` is what an uninitialised result holds.
pub record Environment : Type 0 where
  pub opens : ℕ → Bool
  pub accepts : ℕ → ℕ → Bool
  pub unread : ℕ

-- `msrFds`, and the registers of the cores by address.
pub record State : Type 0 where
  pub msr_fds : List Fd
  pub registers : ℕ → ℕ → ℕ

module _ (env : Environment) where
  pub open_msr : (core : ℕ) → Fd
  open_msr core = if env.opens core then file core else failed

  pub opened : (core : ℕ) → Fd → State → Option (Fd × State)
  opened core closed s = do
    fds ← store s.msr_fds core (open_msr core)
    some (open_msr core, record s { msr_fds = fds })
  opened core fd s = some (fd, s)

  -- `if (!msrFds[core]) msrFds[core] = openMsr(core);` and the read of the entry that follows.
  pub ensure_open : (core : ℕ) → State → Option (Fd × State)
  ensure_open core s = do fd ← get_elem? s.msr_fds core; opened core fd s

  pub read_msr : Fd → (addr : ℕ) → State → ℕ
  read_msr (file core) addr s = s.registers core addr
  read_msr _ addr s = env.unread

  pub write_msr : Fd → (addr value : ℕ) → State → State
  write_msr (file core) addr value s =
      if env.accepts core addr
      then record s {
        registers = λ c a. if (c == core) && (a == addr) then value else s.registers c a;
      }
      else s
  write_msr _ addr value s = s

  -- `hwcrValue &= ~(1UL << 25)` or `hwcrValue |= (1UL << 25)`
  pub boost_bit : (on : Bool) → (hwcr_value : ℕ) → ℕ
  boost_bit true v = if v / 2 ^ 25 % 2 == 1 then v - 2 ^ 25 else v
  boost_bit false v = if v / 2 ^ 25 % 2 == 0 then v + 2 ^ 25 else v

  pub set_boost_core : (on : Bool) (core : ℕ) → State → Option State
  set_boost_core on core s = do
    (fd, s') ← ensure_open core s
    some (write_msr fd hwcr (boost_bit on (read_msr fd hwcr s')) s')

  pub set_boost_loop : (on : Bool) (left i : ℕ) → State → Option State
  set_boost_loop on zero i s = some s
  set_boost_loop on (suc left) i s = do
    s' ← set_boost_core on i s
    set_boost_loop on left (i + 1) s'

  pub set_boost : (on : Bool) (num_procs : ℕ) → State → Option State
  set_boost on num_procs s = set_boost_loop on num_procs 0 s

  pub get_core_energy_stat : (amd_cpu : Bool) (core : ℕ) → State → Option (ℕ × State)
  get_core_energy_stat amd_cpu core s = do
    (fd, s') ← ensure_open core s
    let addr = if amd_cpu then msr_core_energy_stat else intel_msr_pp0_energy_status
    some (read_msr fd addr s', s')

  pub total_loop : (left i total : ℕ) → State → Option (ℕ × State)
  total_loop zero i total s = some (total, s)
  total_loop (suc left) i total s = do
    (energy, s') ← get_core_energy_stat true i s
    total_loop left (i + 1) (u64 (total + energy)) s'

  pub get_total_core_energy : (amd_cpu : Bool) → State → Option (ℕ × State)
  get_total_core_energy true s = total_loop 16 0 0 s
  get_total_core_energy false s = get_core_energy_stat false 0 s

  pub get_pkg_energy_stat : (amd_cpu : Bool) (core : ℕ) → State → Option (ℕ × State)
  get_pkg_energy_stat amd_cpu core s = do
    (fd, s') ← ensure_open core s
    let addr = if amd_cpu then msr_pkg_energy_stat else intel_msr_pkg_energy_status
    some (read_msr fd addr s', s')

  -- The exponent is `(raplPwrUnit >> 8) & 0x1F`.
  pub get_energy_status_units : (fl : Floats) (amd_cpu : Bool) → State → Option (fl.Real × State)
  get_energy_status_units fl amd_cpu s = do
    (fd, s') ← ensure_open 0 s
    let addr = if amd_cpu then msr_rapl_pwr_unit else intel_msr_rapl_pwr_unit
    let energy_units = read_msr fd addr s' / 2 ^ 8 % 2 ^ 5
    let half = fl.div (fl.real (pos 1)) (fl.real (pos 2))
    some (fl.narrow (fl.pow half (fl.real (pos energy_units))), s')
