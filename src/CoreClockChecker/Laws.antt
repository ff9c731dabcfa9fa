-- ===== src/CoreClockChecker/Laws.antt =====
-- setBoost of CoreClockChecker/CoreClockChecker.c on all cores.
use u_arch_test.Prelude.{
  ℕ, zero, suc, ◌+◌, ◌/◌, ◌%◌, ◌^◌, ◌≤◌, ◌<◌, ◌≡◌, ◌≢◌, ◌⊎◌, inl, inr, refl, sym, ap, ◌∙◌, ◌==◌,
  if◌then◌else◌, leb, ltb, Bool, true, false, ◌&&◌, Option, some, length, get_elem?,
  get_elem?_of_lt, set, length-set, get_elem?-set_self, get_elem?-set_ne, store_lem, arith, ◌>>=◌,
}
use mathlib.Core.Option.{some-injective}
use native.Mathlib.Decide.{ℕ_discrete}
use u_arch_test.CoreClockChecker.{
  Fd, closed, file, Environment, State, hwcr, open_msr, opened, ensure_open, read_msr, write_msr,
  boost_bit, set_boost_core, set_boost_loop, set_boost,
}

-- The table has an entry for each of `n` cores, closed or the file of that core.
pub record IsTidy (n : ℕ) (s : State) : Type 0 where
  pub size : length s.msr_fds ≡ n
  pub entry : (k : ℕ) (fd : Fd) → get_elem? s.msr_fds k ≡ some fd → (fd ≡ closed) ⊎ (fd ≡ file k)

module _ (env : Environment) (opens : (core : ℕ) → env.opens core ≡ true) (n : ℕ) where
  -- The file of a core is open, and nothing else has changed.
  pub record Open (core : ℕ) (s : State) (r : Option (Fd × State)) : Type 0 where
    pub after : State
    pub returns : r ≡ some (file core, after)
    pub same : after.registers ≡ s.registers
    pub tidy : IsTidy n after

  pub ensure_open-Open :
      (core : ℕ) (s : State) → core < n → IsTidy n s → Open core s (ensure_open env core s)
  unfolding ensure_open opened open_msr
  ensure_open-Open core s h tidy =
      let (fd, at_core) = get_elem?_of_lt s.msr_fds core (omega (arith, tidy.size)) in
      by_entry fd at_core (tidy.entry core fd at_core)
    where
      stored :
          (k : ℕ) (fd : Fd)
          → get_elem? (set s.msr_fds core (file core)) k ≡ some fd
          → (fd ≡ closed) ⊎ (fd ≡ file k)
      stored k fd e = elim (ℕ_discrete core k) [
        | yes same ↦ inr (
            some-injective fd (file k) (
              sym e
              ∙ ap (get_elem? (set s.msr_fds core (file core))) (sym same)
              ∙ get_elem?-set_self s.msr_fds core (file core) (omega (arith, tidy.size))
              ∙ ap (λ c. some (file c)) same))
        | no other ↦ tidy.entry k fd (sym (get_elem?-set_ne s.msr_fds core k (file core) other) ∙ e)
      ]

      by_entry :
          (fd : Fd)
          → get_elem? s.msr_fds core ≡ some fd
          → (fd ≡ closed) ⊎ (fd ≡ file core)
          → Open core s (ensure_open env core s)
      by_entry fd at_core (inl is_closed) = record {
        after = record s { msr_fds = set s.msr_fds core (file core) };
        returns =
            rw
              (
                at_core,
                ◌>>=◌,
                is_closed,
                opens core,
                store_lem s.msr_fds core (file core) (omega (arith, tidy.size)),
              )
              refl;
        same = refl;
        tidy = record { size = length-set s.msr_fds core (file core) ∙ tidy.size; entry = stored };
      }
      by_entry fd at_core (inr is_file) = record {
        after = s;
        returns = rw (at_core, ◌>>=◌, is_file) refl;
        same = refl;
        tidy = tidy;
      }

module _ (env : Environment) (opens : (core : ℕ) → env.opens core ≡ true)
    (accepts : (core : ℕ) → env.accepts core hwcr ≡ true) (n : ℕ) where
  -- Core `c` is one of the cores from `i` on, `left` of them, and `a` is HWCR.
  abbrev hit : (i left c a : ℕ) → Bool
  hit i left c a = (leb i c && ltb c (i + left)) && (a == hwcr)

  -- What the loop over `left` cores from core `i` on does.
  record Boosted (on : Bool) (left i : ℕ) (s : State) (r : Option State) : Type 0 where
    pub after : State
    pub returns : r ≡ some after
    pub tidy : IsTidy n after
    effect :
        (c a : ℕ)
        → after.registers c a
          ≡ (if hit i left c a then boost_bit env on (s.registers c a) else s.registers c a)

  written_at :
      (on : Bool) (i : ℕ) (regs : ℕ → ℕ → ℕ) (c a : ℕ)
      → (if (c == i) && (a == hwcr) then boost_bit env on (regs i hwcr) else regs c a)
        ≡ (if hit i 1 c a then boost_bit env on (regs c a) else regs c a)
  written_at on i regs c a = ground arith

  set_boost_core-Boosted :
      (on : Bool) (i : ℕ) (s : State)
      → i < n
      → IsTidy n s
      → Boosted on 1 i s (set_boost_core env on i s)
  unfolding set_boost_core read_msr write_msr
  set_boost_core-Boosted on i s h tidy =
      let o = ensure_open-Open env opens n i s h tidy in
      record {
        after = record o.after {
          registers = λ c a.
              if (c == i) && (a == hwcr)
              then boost_bit env on (o.after.registers i hwcr)
              else o.after.registers c a;
        };
        returns = rw (o.returns, ◌>>=◌, accepts i) refl;
        tidy = record { size = o.tidy.size; entry = o.tidy.entry };
        effect = λ c a.
            written_at on i o.after.registers c a
            ∙ ap
                (λ (regs : ℕ → ℕ → ℕ).
                  if hit i 1 c a then boost_bit env on (regs c a) else regs c a)
                o.same;
      }

  twice :
      (on : Bool) (left i c a v v' v'' : ℕ)
      → v' ≡ (if hit i 1 c a then boost_bit env on v else v)
      → v'' ≡ (if hit (i + 1) left c a then boost_bit env on v' else v')
      → v'' ≡ (if hit i (suc left) c a then boost_bit env on v else v)
  twice on left i c a v v' v'' first rest = ground arith

  set_boost_loop-Boosted :
      (on : Bool) (left i : ℕ) (s : State)
      → i + left ≤ n
      → IsTidy n s
      → Boosted on left i s (set_boost_loop env on left i s)
  unfolding set_boost_loop
  set_boost_loop-Boosted on zero i s h tidy = record {
    after = s;
    returns = refl;
    tidy = tidy;
    effect = λ c a. ground arith;
  }
  set_boost_loop-Boosted on (suc left) i s h tidy =
      let first = set_boost_core-Boosted on i s (omega arith) tidy in
      let rest = set_boost_loop-Boosted on left (i + 1) first.after (omega arith) first.tidy in
      record {
        after = rest.after;
        returns = rw (first.returns, ◌>>=◌) rest.returns;
        tidy = rest.tidy;
        effect = λ c a.
            twice on left i c a (s.registers c a) (first.after.registers c a)
              (rest.after.registers c a) (first.effect c a) (rest.effect c a);
      }

  bit_set :
      (on : Bool) (v : ℕ)
      → (boost_bit env on v / 2 ^ 25 % 2 ≡ (if on then 0 else 1))
        × (boost_bit env on v % 2 ^ 25 ≡ v % 2 ^ 25)
        × (boost_bit env on v / 2 ^ 26 ≡ v / 2 ^ 26)
  unfolding boost_bit
  bit_set true v = (ground arith, ground arith, ground arith)
  bit_set false v = (ground arith, ground arith, ground arith)

  -- setBoost on `n` cores, where every core's file can be opened, writes to HWCR take effect, and
  -- the table has an entry for each core, closed or its own file: it returns without a fault and
  -- leaves such a table. In HWCR of every core bit 25 is then clear to request the boost and set to
  -- disable it, and the other bits are as before, and so are all other registers and cores.
  pub set_boost_lem :
      (on : Bool) (s : State)
      → IsTidy n s
      → (after : State) × (set_boost env on n s ≡ some after)
        × IsTidy n after
        × ((c : ℕ)
            → c < n
            → (after.registers c hwcr / 2 ^ 25 % 2 ≡ (if on then 0 else 1))
              × (after.registers c hwcr % 2 ^ 25 ≡ s.registers c hwcr % 2 ^ 25)
              × (after.registers c hwcr / 2 ^ 26 ≡ s.registers c hwcr / 2 ^ 26))
        × ((c a : ℕ) → (n ≤ c) ⊎ (a ≢ hwcr) → after.registers c a ≡ s.registers c a)
  unfolding set_boost
  set_boost_lem on s tidy =
      let run = set_boost_loop-Boosted on n 0 s (omega arith) tidy in
      (
        run.after,
        run.returns,
        run.tidy,
        λ c h.
            rw (run.effect c hwcr ∙ in_range c (s.registers c hwcr) h)
              (bit_set on (s.registers c hwcr)),
        λ c a out. run.effect c a ∙ out_of_range c a (s.registers c a) out,
      )
    where
      in_range :
          (c v : ℕ)
          → c < n
          → (if hit 0 n c hwcr then boost_bit env on v else v) ≡ boost_bit env on v
      in_range c v h = ground arith

      out_of_range :
          (c a v : ℕ) → (n ≤ c) ⊎ (a ≢ hwcr) → (if hit 0 n c a then boost_bit env on v else v) ≡ v
      out_of_range c a v (inl h) = ground arith
      out_of_range c a v (inr h) = ground arith
