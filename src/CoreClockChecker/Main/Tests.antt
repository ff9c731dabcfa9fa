-- ===== src/CoreClockChecker/Main/Tests.antt =====
-- An example of main of CoreClockChecker.
use u_arch_test.Prelude.{ℕ, ◌+◌, ◌*◌}
use u_arch_test.Timing.{Timeval}
use Prim.Native.String.{String}

-- A command that adds 500 to each counter; a test that leaves them alone.
abbrev working : String → (ℕ → ℕ → ℕ) → ℕ → ℕ → ℕ
working command r core addr = r core addr + 500

abbrev idle : ℕ → (ℕ → ℕ → ℕ) → ℕ → ℕ → ℕ
idle k r core addr = r core addr

abbrev at_start : ℕ → ℕ → ℕ
at_start core addr = core * 1000 + addr

abbrev two_seconds : ℕ → Timeval × Timeval
two_seconds k = (record { sec = 1; usec = 0 }, record { sec = 3; usec = 0 })
