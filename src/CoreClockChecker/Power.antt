-- ===== src/CoreClockChecker/Power.antt =====
-- main of CoreClockChecker/CoreClockChecker.c: detectCpuMaker, the choice of the mode, and the modes that
-- measure each core.
pub mod Laws
pub mod Maker
pub mod Tests
use u_arch_test.Prelude.{
  ℕ, zero, suc, ◌+◌, ◌*◌, ◌/◌, ◌%◌, ◌==◌, if◌then◌else◌, Bool, true, false, ◌&&◌, List, [], ◌∷◌,
  ◌++◌, Option, none, some, replicate, sub64, u64, ◌>>=◌,
}
use u_arch_test.Prelude.Int.{ℤ, pos, sub_ℕ, scale, quot, ◌+ℤ◌}
use u_arch_test.Timing.{Floats, Timeval}
use u_arch_test.CoreClockChecker.{
  Environment, State, closed, set_boost, get_core_energy_stat, get_pkg_energy_stat,
  get_energy_status_units,
}
use Prim.Native.String.{String}
use text.Mathlib.Text.{starts_with}

-- The bytes of a register, lowest first.
pub bytes_of_word : ℕ → List ℕ
bytes_of_word w = w % 256 ∷ w / 256 % 256 ∷ w / 65536 % 256 ∷ w / 16777216 % 256 ∷ []

-- `memcmp(a, b, n) == 0` for the n bytes of each.
pub same_bytes : List ℕ → List ℕ → Bool
same_bytes [] [] = true
same_bytes (x ∷ xs) (y ∷ ys) = (x == y) && same_bytes xs ys
same_bytes _ _ = false

-- "GenuineIntel" and "AuthenticAMD"
abbrev pub genuine_intel : List ℕ
genuine_intel = 71 ∷ 101 ∷ 110 ∷ 117 ∷ 105 ∷ 110 ∷ 101 ∷ 73 ∷ 110 ∷ 116 ∷ 101 ∷ 108 ∷ []

abbrev pub authentic_amd : List ℕ
authentic_amd = 65 ∷ 117 ∷ 116 ∷ 104 ∷ 101 ∷ 110 ∷ 116 ∷ 105 ∷ 99 ∷ 65 ∷ 77 ∷ 68 ∷ []

-- `amdCpu`, from what cpuid leaves in the registers.
pub detect_cpu_maker : (cpuid_ebx cpuid_edx cpuid_ecx : ℕ) → Bool
detect_cpu_maker cpuid_ebx cpuid_edx cpuid_ecx =
    let cpu_name = bytes_of_word cpuid_ebx ++ bytes_of_word cpuid_edx ++ bytes_of_word cpuid_ecx in
    if same_bytes cpu_name genuine_intel then false else same_bytes cpu_name authentic_amd

-- The modes, by the arguments after the program's name.
pub data ClockMode : Type 0 where
  disable_boost enable_boost power clocks : ClockMode
  measure_cmd : (command : String) → ClockMode

unfoldable pub mode_of_arguments : List String → ClockMode
mode_of_arguments [] = clocks
mode_of_arguments (arg ∷ []) =
    if starts_with arg "disableboost"
    then disable_boost
    else if starts_with arg "enableboost"
    then enable_boost
    else if starts_with arg "power"
    then power
    else clocks
mode_of_arguments (arg ∷ command ∷ rest) =
    if starts_with arg "disableboost"
    then disable_boost
    else if starts_with arg "enableboost"
    then enable_boost
    else if starts_with arg "power"
    then power
    else if starts_with arg "measurecmd"
    then measure_cmd command
    else clocks

-- `msrFds` after malloc and memset.
unfoldable pub closed_fds : (num_procs : ℕ) → (registers : ℕ → ℕ → ℕ) → State
closed_fds num_procs registers = record {
  msr_fds = replicate num_procs closed;
  registers = registers;
}

-- What is printed for a core in the mode `power`, and the differences of its counters.
pub record PowerLine (Real : Type 0) : Type 0 where
  pub core : ℕ
  pub core_energy : ℕ
  pub pkg_energy : ℕ
  pub core_power : Real
  pub pkg_power : Real

-- `clktest k` is what happens to the registers while the k-th run of the test lasts, which is when
-- the counters are taken to move, and `readings k` the two
-- readings of the clock around it.
module _ (fl : Floats) (env : Environment) (clktest : ℕ → (ℕ → ℕ → ℕ) → ℕ → ℕ → ℕ)
    (readings : ℕ → Timeval × Timeval) where
  -- `time_diff_ms`, a time_t
  abbrev pub power_time_ms : Timeval × Timeval → ℤ
  power_time_ms (s, e) = scale 1000 (sub_ℕ e.sec s.sec) +ℤ quot (sub_ℕ e.usec s.usec) 1000

  -- `((end - start) * energyUnits) / (time_diff_ms / 1000)`
  pub power_of : (energy_units : fl.Real) (energy : ℕ) → Timeval × Timeval → fl.Real
  power_of energy_units energy reading = fl.narrow (
      fl.div (fl.narrow (fl.mul (fl.narrow (fl.real (pos energy))) energy_units))
        (fl.narrow (fl.real (quot (power_time_ms reading) 1000))))

  module _ (amd_cpu : Bool) (energy_units : fl.Real) where
    pub power_line : (i core_energy pkg_energy : ℕ) → PowerLine fl.Real
    power_line i core_energy pkg_energy = record {
      core = i;
      core_energy = core_energy;
      pkg_energy = pkg_energy;
      core_power = power_of energy_units core_energy (readings i);
      pkg_power = power_of energy_units pkg_energy (readings i);
    }

    -- One round of the loop.
    pub power_core : (i : ℕ) → State → Option (PowerLine fl.Real × State)
    power_core i s = do
      (start_energy, s1) ← get_core_energy_stat env amd_cpu i s
      (start_pkg_energy, s2) ← get_pkg_energy_stat env amd_cpu i s1
      let ran = record s2 { registers = clktest i s2.registers }
      (end_pkg_energy, s3) ← get_pkg_energy_stat env amd_cpu i ran
      (end_energy, s4) ← get_core_energy_stat env amd_cpu i s3
      let core_energy = sub64 end_energy start_energy
      let pkg_energy = sub64 end_pkg_energy start_pkg_energy
      some (power_line i core_energy pkg_energy, s4)

    -- The loop over the cores, with `left` to go.
    pub power_loop : (left i : ℕ) → State → Option (List (PowerLine fl.Real) × State)
    power_loop zero i s = some ([], s)
    power_loop (suc left) i s = do
      (line, s') ← power_core i s
      (lines, s'') ← power_loop left (i + 1) s'
      some (line ∷ lines, s'')

  -- The mode `power`, from the table with all files closed.
  pub power_mode :
      (amd_cpu : Bool) (num_procs : ℕ) (registers : ℕ → ℕ → ℕ) → Option (List (PowerLine fl.Real))
  power_mode amd_cpu num_procs registers = do
    (energy_units, s) ← get_energy_status_units env fl amd_cpu (closed_fds num_procs registers)
    (lines, s') ← power_loop amd_cpu energy_units num_procs 0 s
    some lines

-- The mode without an argument: the clock of each core in GHz.
module _ (fl : Floats) (readings : ℕ → Timeval × Timeval) where
  pub clock_ghz : (iterations_high : ℕ) → Timeval × Timeval → fl.Real
  clock_ghz iterations_high (s, e) =
      let ms = scale 1000 (sub_ℕ e.sec s.sec) +ℤ quot (sub_ℕ e.usec s.usec) 1000 in
      let latency = fl.narrow (
        fl.div (fl.mul (fl.real (pos 1000000)) (fl.narrow (fl.real ms)))
          (fl.narrow (fl.real (pos iterations_high)))) in
      fl.narrow (fl.div (fl.real (pos 1)) latency)

  pub clock_loop : (left i : ℕ) → List (ℕ × fl.Real)
  clock_loop zero i = []
  clock_loop (suc left) i = (i, clock_ghz 8000000000 (readings i)) ∷ clock_loop left (i + 1)
