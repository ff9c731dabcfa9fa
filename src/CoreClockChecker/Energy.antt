-- ===== src/CoreClockChecker/Energy.antt =====
-- getTotalCoreEnergy of CoreClockChecker/CoreClockChecker.c on machines with few processors.
use u_arch_test.Prelude.{
  ℕ, zero, suc, ◌+◌, ◌≤◌, ◌<◌, ◌≡◌, refl, true, List, [], ◌∷◌, none, length, get_elem?, u64, arith,
  ◌>>=◌,
}
use native.Mathlib.Decide.{dec_lt}
use u_arch_test.CoreClockChecker.{
  Environment, State, msr_core_energy_stat, file, ensure_open, read_msr, get_core_energy_stat,
  total_loop, get_total_core_energy,
}
use u_arch_test.CoreClockChecker.Laws.{IsTidy, ensure_open-Open}

get_elem?_out {ℓ} : {A : Type ℓ} (xs : List A) (i : ℕ) → length xs ≤ i → get_elem? xs i ≡ none
get_elem?_out [] i h = refl
get_elem?_out (x ∷ xs) zero h = absurd (omega arith)
get_elem?_out (x ∷ xs) (suc i) h = get_elem?_out xs i (omega arith)

module _ (env : Environment) (opens : (core : ℕ) → env.opens core ≡ true) (n : ℕ) where
  total_loop_out :
      (left i total : ℕ) (s : State)
      → i ≤ n
      → n < i + left
      → IsTidy n s
      → total_loop env left i total s ≡ none
  unfolding total_loop get_core_energy_stat
  total_loop_out zero i total s le h tidy = absurd (omega arith)
  total_loop_out (suc left) i total s le h tidy = elim (dec_lt i n) [
    | yes below ↦
        let o = ensure_open-Open env opens n i s below tidy in
        rw (o.returns, ◌>>=◌)
          (total_loop_out left (i + 1)
            (u64 (total + read_msr env (file i) msr_core_energy_stat o.after)) o.after (omega arith)
            (omega arith) o.tidy)
    | no last ↦
        unfold ensure_open in rw (get_elem?_out s.msr_fds i (omega (arith, tidy.size)), ◌>>=◌) refl
  ]

  -- On an AMD machine with fewer than 16 processors, where every core's file can be opened and the
  -- table has an entry for each core, closed or its own file,
  -- getTotalCoreEnergy reads beyond the table of open files.
  pub get_total_core_energy_out :
      (s : State) → IsTidy n s → n < 16 → get_total_core_energy env true s ≡ none
  unfolding get_total_core_energy
  get_total_core_energy_out s tidy few = total_loop_out 16 0 0 s (omega arith) (omega arith) tidy
