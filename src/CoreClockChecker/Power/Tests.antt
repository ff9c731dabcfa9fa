-- ===== src/CoreClockChecker/Power/Tests.antt =====
-- Examples of the processor that is detected, and of the mode `power`.
use u_arch_test.Prelude.{ℕ, ◌+◌, ◌*◌, ◌≡◌, refl, true, false, [], ◌∷◌}
use u_arch_test.Timing.{Timeval}
use u_arch_test.CoreClockChecker.Power.{
  bytes_of_word, same_bytes, detect_cpu_maker, mode_of_arguments, measure_cmd, clocks,
}

amd_run : detect_cpu_maker 0x68747541 0x69746e65 0x444d4163 ≡ true
unfolding detect_cpu_maker bytes_of_word same_bytes
amd_run = refl

intel_run : detect_cpu_maker 0x756e6547 0x49656e69 0x6c65746e ≡ false
unfolding detect_cpu_maker bytes_of_word same_bytes
intel_run = refl

-- The mode `measurecmd` needs a command.
command_run : mode_of_arguments ("measurecmd" ∷ "make" ∷ []) ≡ measure_cmd "make"
unfolding mode_of_arguments
command_run = refl

no_command_run : mode_of_arguments ("measurecmd" ∷ []) ≡ clocks
unfolding mode_of_arguments
no_command_run = refl

abbrev registers : ℕ → ℕ → ℕ
registers core addr = core * 1000 + addr

abbrev counting : ℕ → (ℕ → ℕ → ℕ) → ℕ → ℕ → ℕ
counting k r core addr = r core addr + 500

abbrev seconds : ℕ → Timeval × Timeval
seconds k = (record { sec = k; usec = 0 }, record { sec = k + 4; usec = 0 })
