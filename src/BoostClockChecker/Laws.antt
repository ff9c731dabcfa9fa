-- ===== src/BoostClockChecker/Laws.antt =====
-- The options and the table of CoreClockChecker/BoostClockChecker.c.
use u_arch_test.Prelude.{
  ℕ, zero, suc, ◌+◌, ◌*◌, ◌^◌, ◌≤◌, ◌<◌, ◌≡◌, refl, sym, ap, ◌∙◌, List, [], ◌∷◌, Option, some,
  get_elem?, get_elem?-set_self, get_elem?-set_ne, length, length-set, set, u64, u32_small,
  u64_small, store_lem, ◌>>=◌, arith,
}
use u_arch_test.Prelude.Int.{ℤ, pos}
use u_arch_test.Timing.{Floats, Timeval}
use u_arch_test.BoostClockChecker.{
  Options, switch, parsed, parse_loop, Row, sample_loop, tsc_per_ms, elapsed_time_ms, speed,
  line_loop, clock_table,
}
use native.Mathlib.Decide.{ℕ_discrete}
use native.Mathlib.Numerals.{add-one}
use Prim.Native.String.{String}

-- A command line that asks for given options, with numbers written by `text`.
pub render : (text : ℕ → String) → Options → List String
render text o =
    "-samples"
    ∷ text o.samples
    ∷ "-iterations"
    ∷ text o.iterations
    ∷ "-sleep"
    ∷ text o.sleep_seconds
    ∷ []

-- The options fit into the types that their texts are read with.
pub record Fits (o : Options) : Type 0 where
  pub samples : o.samples < 2 ^ 63
  pub iterations : o.iterations < 2 ^ 63
  pub sleep_seconds : o.sleep_seconds < 2 ^ 31

-- Where numbers are written in a way that atol and atoi read, every choice of options that fits can
-- be asked for: its command line is read as just these options, whatever they were before.
pub parse_loop-render :
    (atol atoi : String → ℤ) (text : ℕ → String) (before o : Options)
    → ((n : ℕ) → n < 2 ^ 63 → atol (text n) ≡ pos n)
    → ((n : ℕ) → n < 2 ^ 31 → atoi (text n) ≡ pos n)
    → Fits o
    → parse_loop atol atoi (render text o) before ≡ parsed o
unfolding parse_loop render switch
parse_loop-render atol atoi text before o long short fits =
    rw
      (
        long o.samples fits.samples,
        long o.iterations fits.iterations,
        short o.sleep_seconds fits.sleep_seconds,
      )
      (ap parsed (
        cong3 (u64_small o.iterations (omega (arith, fits.iterations)))
          (u64_small o.samples (omega (arith, fits.samples)))
          (u32_small o.sleep_seconds (omega (arith, fits.sleep_seconds)))))
  where
    cong3 :
        {i i' n n' t t' : ℕ}
        → i ≡ i'
        → n ≡ n'
        → t ≡ t'
        → Path Options
            (record { iterations = i; samples = n; sleep_seconds = t })
            (record { iterations = i'; samples = n'; sleep_seconds = t' })
    cong3 p q r = cc

module _ (fl : Floats) (clktsctest : ℕ → ℕ → ℕ) (block : ℕ → Option (List ℕ)) (iterations : ℕ) where
  -- The samples from some index on are taken, and no earlier one changes.
  record Sampled (left from : ℕ) (slots : List ℕ) (r : Option (List ℕ)) : Type 0 where
    out : List ℕ
    returns : r ≡ some out
    fresh : (k : ℕ) → from ≤ k → k < from + left → get_elem? out k ≡ some (clktsctest k iterations)
    before : (k : ℕ) → k < from → get_elem? out k ≡ get_elem? slots k

  sample_loop-Sampled :
      (left from : ℕ) (slots : List ℕ)
      → from + left ≤ length slots
      → Sampled left from slots (sample_loop fl clktsctest block iterations left from slots)
  unfolding sample_loop
  sample_loop-Sampled zero from slots room = record {
    out = slots;
    returns = refl;
    fresh = λ k a b. absurd (omega arith);
    before = λ k a. refl;
  }
  sample_loop-Sampled (suc left) from slots room =
      let tsc = clktsctest from iterations in
      let rest =
        sample_loop-Sampled left (from + 1) (set slots from tsc)
          (omega (arith, length-set slots from tsc)) in
      record {
        out = rest.out;
        returns = rw (store_lem slots from tsc (omega arith), ◌>>=◌) rest.returns;
        fresh = λ k a b. elim (ℕ_discrete from k) [
          | yes e ↦
              rest.before k (omega arith)
              ∙ ap (get_elem? (set slots from tsc)) (sym e)
              ∙ get_elem?-set_self slots from tsc (omega arith)
              ∙ ap (λ i. some (clktsctest i iterations)) e
          | no ne ↦ rest.fresh k (omega arith) (omega arith)
        ];
        before = λ k a.
            rest.before k (omega arith)
            ∙ get_elem?-set_ne slots from k tsc (λ e. absurd (omega arith));
      }

  module _ (per_ms : fl.Real) where
    -- The time that the first samples took together.
    pub total_time : ℕ → fl.Real
    total_time zero = fl.real (pos 0)
    total_time (suc k) = fl.narrow (
        fl.add (total_time k)
          (elapsed_time_ms fl clktsctest block per_ms iterations (clktsctest k iterations)))

    -- The line of a sample.
    pub line : ℕ → Row fl.Real
    line k = record {
      elapsed_time = total_time (suc k);
      adds_per_ns = speed fl clktsctest block per_ms iterations (clktsctest k iterations);
      measured = clktsctest k iterations;
    }

    line_loop_lem :
        (left from : ℕ) (slots : List ℕ)
        → ((k : ℕ)
            → from ≤ k
            → k < from + left
            → get_elem? slots k ≡ some (clktsctest k iterations))
        → (rows : List (Row fl.Real)) × (line_loop fl clktsctest block per_ms iterations left from
              (total_time from)
              slots
            ≡ some rows)
          × (length rows ≡ left)
          × ((k : ℕ) → k < left → get_elem? rows k ≡ some (line (from + k)))
    unfolding line_loop total_time elapsed_time_ms speed line
    line_loop_lem zero from slots taken = ([], refl, refl, λ k h. absurd (omega arith))
    line_loop_lem (suc left) from slots taken =
        let (rows, returns, count, lines) =
          line_loop_lem left (suc from) slots (λ k a b. taken k (omega arith) (omega arith)) in
        (
          line from ∷ rows,
          rw (taken from (omega arith) (omega arith), ◌>>=◌, add-one, returns, ◌>>=◌) refl,
          ap suc count,
          from_here rows lines,
        )
      where
        from_here :
            (rows : List (Row fl.Real))
            → ((k : ℕ) → k < left → get_elem? rows k ≡ some (line (suc from + k)))
            → (k : ℕ) → k < suc left
            → get_elem? (line from ∷ rows) k ≡ some (line (from + k))
        from_here rows lines zero h = ap (λ i. some (line i)) (omega arith)
        from_here rows lines (suc k) h =
            lines k (omega arith) ∙ ap (λ i. some (line i)) (omega arith)

-- What BoostClockChecker prints, for less than 2 ^ 61 samples and where malloc gives the memory that
-- is asked for: one line for each sample, in order, with the sample's value, the speed that it
-- means, and the total of the times of the samples up to it, in units of the measured ratio.
pub clock_table_lem :
    (fl : Floats) (clktsctest : ℕ → ℕ → ℕ) (block : ℕ → Option (List ℕ)) (start end : Timeval)
    (o : Options) (slots : List ℕ)
    → o.samples < 2 ^ 61
    → block (8 * o.samples) ≡ some slots
    → length slots ≡ o.samples
    → let per_ms = tsc_per_ms fl clktsctest block (clktsctest o.samples 8000000000) start end in
      (rows : List (Row fl.Real)) × (clock_table fl clktsctest block start end o ≡ some rows)
      × (length rows ≡ o.samples)
      × ((k : ℕ)
          → k < o.samples
          → get_elem? rows k ≡ some (line fl clktsctest block o.iterations per_ms k))
unfolding clock_table total_time
clock_table_lem fl clktsctest block start end o slots small has_block room =
    let samples =
      sample_loop-Sampled fl clktsctest block o.iterations o.samples 0 slots
        (omega (arith, room)) in
    let per_ms = tsc_per_ms fl clktsctest block (clktsctest o.samples 8000000000) start end in
    let (rows, returns, count, lines) =
      line_loop_lem fl clktsctest block o.iterations per_ms o.samples 0 samples.out
        (λ k a b. samples.fresh k a b) in
    let bytes : u64 (o.samples * 8) ≡ 8 * o.samples = omega arith in
    (
      rows,
      rw (bytes, has_block, samples.returns, ◌>>=◌) returns,
      count,
      λ k h.
          lines k h ∙ ap (λ i. some (line fl clktsctest block o.iterations per_ms i)) (omega arith),
    )
