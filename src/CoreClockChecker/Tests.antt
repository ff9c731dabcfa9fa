-- ===== src/CoreClockChecker/Tests.antt =====
-- Examples of CoreClockChecker.
use u_arch_test.Prelude.{
  ℕ, zero, suc, ◌+◌, ◌/◌, ◌%◌, ◌^◌, ◌≤◌, ◌<◌, ◌≡◌, ◌≢◌, ◌⊎◌, inl, inr, refl, sym, true, [], ◌∷◌,
  none, some, get_elem?, arith,
}
use mathlib.Core.Option.{some-injective, none-ne-some}
use u_arch_test.CoreClockChecker.{
  Fd, closed, file, Environment, State, hwcr, set_boost, get_total_core_energy,
}
use u_arch_test.CoreClockChecker.Laws.{IsTidy, set_boost_lem}
use u_arch_test.CoreClockChecker.Energy.{get_total_core_energy_out}

abbrev pub environment : Environment
environment = record { opens = λ core. true; accepts = λ core addr. true; unread = 77 }

-- Two processors, the second one's file open.
abbrev two : State
two = record { msr_fds = closed ∷ file 1 ∷ []; registers = λ core addr. core + addr }

two-IsTidy : IsTidy 2 two
two-IsTidy = record { size = refl; entry = entry }
  where
    entry : (k : ℕ) (fd : Fd) → get_elem? two.msr_fds k ≡ some fd → (fd ≡ closed) ⊎ (fd ≡ file k)
    entry zero fd e = inl (sym (some-injective closed fd e))
    entry (suc zero) fd e = inr (sym (some-injective (file 1) fd e))
    entry (suc (suc k)) fd e = absurd (none-ne-some fd e)

set_boost_lem_example :
    (after : State) × (set_boost environment true 2 two ≡ some after)
    × IsTidy 2 after
    × ((c : ℕ)
        → c < 2
        → (after.registers c hwcr / 2 ^ 25 % 2 ≡ 0)
          × (after.registers c hwcr % 2 ^ 25 ≡ two.registers c hwcr % 2 ^ 25)
          × (after.registers c hwcr / 2 ^ 26 ≡ two.registers c hwcr / 2 ^ 26))
    × ((c a : ℕ) → (2 ≤ c) ⊎ (a ≢ hwcr) → after.registers c a ≡ two.registers c a)
set_boost_lem_example =
    set_boost_lem environment (λ core. refl) (λ core. refl) 2 true two two-IsTidy

get_total_core_energy_out_example : get_total_core_energy environment true two ≡ none
get_total_core_energy_out_example =
    get_total_core_energy_out environment (λ core. refl) 2 two two-IsTidy (omega arith)
