-- ===== src/MemoryLatency/Stlf/Laws.antt =====
-- The table of RunStlfTest in MemoryLatency/MemoryLatency.c, entry by entry.
use u_arch_test.Prelude.{
  ℕ, zero, suc, ◌+◌, ◌*◌, ◌≤◌, ◌<◌, ◌≡◌, refl, sym, subst, ap, ◌∙◌, List, Option, some, get_elem?,
  get_elem?-set_self, get_elem?-set_ne, length, length-set, length-replicate, set, replicate,
  store_lem, arith, ◌>>=◌,
}
use u_arch_test.Timing.{Floats, Timespec}
use u_arch_test.MemoryLatency.Stlf.{
  StlfState, filled, stlf_latency, stlf_pair, load_loop, store_loop, run_stlf_test, stlf_printed,
}
use native.Mathlib.Decide.{dec_lt}

module _ (fl : Floats) (unset : fl.Real) (stlf_func : ℕ → List ℕ → List ℕ)
    (readings : ℕ → List ℕ → Timespec × Timespec) (iterations : ℕ)
    (same_block : (n : ℕ) (arr : List ℕ) → length (stlf_func n arr) ≡ length arr) where
  -- The latency of one call of the assembly, with these two offsets at the start of its array.
  abbrev pub IsLatency : (store_offset load_offset k : ℕ) → Option fl.Real → Type 0
  IsLatency store_offset load_offset k r =
      (arr : List ℕ) × (get_elem? arr 0 ≡ some store_offset)
      × (get_elem? arr 1 ≡ some load_offset)
      × (length arr ≡ 32)
      × (r ≡ some (stlf_latency fl unset stlf_func readings iterations (readings k arr)))

  record IsState (s : StlfState fl.Real) : Type 0 where
    line : length s.arr ≡ 32
    table : length s.stlf_results ≡ 4096

  -- A loop that fills the table from one slot on, one slot for each measurement.
  record Fills (left from : ℕ) (s : StlfState fl.Real) (r : Option (StlfState fl.Real))
      : Type 0 where
    out : StlfState fl.Real
    returns : r ≡ some out
    valid : IsState out
    moved : out.measured ≡ s.measured + left
    fresh :
        (st l : ℕ)
        → l < 64
        → from ≤ st * 64 + l
        → st * 64 + l < from + left
        → IsLatency st l (st * 64 + l) (get_elem? out.stlf_results (st * 64 + l))
    before : (k : ℕ) → k < from → get_elem? out.stlf_results k ≡ get_elem? s.stlf_results k

  stlf_pair-Fills :
      (st l : ℕ) (s : StlfState fl.Real)
      → IsState s
      → s.measured ≡ st * 64 + l
      → l < 64
      → st < 64
      → Fills 1 (st * 64 + l) s (stlf_pair fl unset stlf_func readings iterations st l s)
  unfolding stlf_pair
  stlf_pair-Fills st l s v at l_lt st_lt =
      let slot = st * 64 + l in
      let arr' = set s.arr 0 st in
      let arr'' = set arr' 1 l in
      let here = stlf_latency fl unset stlf_func readings iterations (readings s.measured arr'') in
      let line' : length arr' ≡ 32 = length-set s.arr 0 st ∙ v.line in
      let line'' : length arr'' ≡ 32 = length-set arr' 1 l ∙ line' in
      record {
        out = record {
          arr = stlf_func iterations arr'';
          stlf_results = set s.stlf_results slot here;
          measured = s.measured + 1;
        };
        returns =
            rw
              (
                store_lem s.arr 0 st (omega (arith, v.line)),
                ◌>>=◌,
                store_lem arr' 1 l (omega (arith, line')),
                ◌>>=◌,
                store_lem s.stlf_results slot here (omega (arith, v.table)),
                ◌>>=◌,
              )
              refl;
        valid = record {
          line = same_block iterations arr'' ∙ line'';
          table = length-set s.stlf_results slot here ∙ v.table;
        };
        moved = refl;
        fresh = λ st' l' lt a b.
            let store_same : st ≡ st' = omega arith in
            let load_same : l ≡ l' = omega arith in
            (
              arr'',
              get_elem?-set_ne arr' 1 0 l (λ e. absurd (omega arith))
                  ∙ get_elem?-set_self s.arr 0 st (omega (arith, v.line))
                  ∙ ap some store_same,
              get_elem?-set_self arr' 1 l (omega (arith, line')) ∙ ap some load_same,
              line'',
              ap (get_elem? (set s.stlf_results slot here)) (omega arith)
                  ∙ get_elem?-set_self s.stlf_results slot here (omega (arith, v.table))
                  ∙ ap
                      (λ k.
                        some
                          (stlf_latency fl unset stlf_func readings iterations (readings k arr'')))
                      (omega (arith, at)),
            );
        before = λ k lt. get_elem?-set_ne s.stlf_results slot k here (λ e. absurd (omega arith));
      }

  -- Two loops one after the other.
  Fills-append :
      (a b n from mid : ℕ) (s : StlfState fl.Real) (first : Option (StlfState fl.Real))
      (later : StlfState fl.Real → Option (StlfState fl.Real))
      → mid ≡ from + a
      → n ≡ a + b
      → (x : Fills a from s first) → Fills b mid x.out (later x.out)
      → Fills n from s (first >>= later)
  Fills-append a b n from mid s first later middle whole x y = record {
    out = y.out;
    returns = rw (x.returns, ◌>>=◌) y.returns;
    valid = y.valid;
    moved = omega (arith, y.moved, x.moved, whole);
    fresh = λ st l lt low high. elim (dec_lt (st * 64 + l) mid) [
      | yes early ↦
          subst (IsLatency st l (st * 64 + l)) (sym (y.before (st * 64 + l) early))
            (x.fresh st l lt low (omega arith))
      | no late ↦ y.fresh st l lt (omega arith) (omega arith)
    ];
    before = λ k lt. y.before k (omega arith) ∙ x.before k lt;
  }

  Fills-none : (from : ℕ) (s : StlfState fl.Real) → IsState s → Fills 0 from s (some s)
  Fills-none from s v = record {
    out = s;
    returns = refl;
    valid = v;
    moved = omega arith;
    fresh = λ st l lt low high. absurd (omega arith);
    before = λ k lt. refl;
  }

  load_loop-Fills :
      (left st l : ℕ) (s : StlfState fl.Real)
      → IsState s
      → s.measured ≡ st * 64 + l
      → l + left ≤ 64
      → st < 64
      → Fills left (st * 64 + l) s (load_loop fl unset stlf_func readings iterations st left l s)
  unfolding load_loop
  load_loop-Fills zero st l s v at le lt = Fills-none (st * 64 + l) s v
  load_loop-Fills (suc left) st l s v at le lt =
      let first = stlf_pair-Fills st l s v at (omega arith) lt in
      let rest =
        load_loop-Fills left st (l + 1) first.out first.valid (omega (arith, at, first.moved))
          (omega arith) lt in
      Fills-append 1 left (suc left) (st * 64 + l) (st * 64 + (l + 1)) s
        (stlf_pair fl unset stlf_func readings iterations st l s)
        (load_loop fl unset stlf_func readings iterations st left (l + 1)) (omega arith)
        (omega arith) first rest

  store_loop-Fills :
      (left st : ℕ) (s : StlfState fl.Real)
      → IsState s
      → s.measured ≡ st * 64
      → st + left ≤ 64
      → Fills (left * 64) (st * 64) s (store_loop fl unset stlf_func readings iterations left st s)
  unfolding store_loop
  store_loop-Fills zero st s v at le = Fills-none (st * 64) s v
  store_loop-Fills (suc left) st s v at le =
      let first : Fills 64 (st * 64) s
          (load_loop fl unset stlf_func readings iterations st 64 0 s) =
        subst (λ n. Fills 64 n s (load_loop fl unset stlf_func readings iterations st 64 0 s))
          (omega arith)
          (load_loop-Fills 64 st 0 s v (omega (arith, at)) (omega arith) (omega arith)) in
      let rest =
        store_loop-Fills left (st + 1) first.out first.valid (omega (arith, at, first.moved))
          (omega arith) in
      Fills-append 64 (left * 64) (suc left * 64) (st * 64) ((st + 1) * 64) s
        (load_loop fl unset stlf_func readings iterations st 64 0 s)
        (store_loop fl unset stlf_func readings iterations left (st + 1)) (omega arith)
        (omega arith) first rest

  -- RunStlfTest, where its two cache lines can be had and the assembly keeps their number: no store
  -- is out of bounds, and what is printed for each pair of offsets below 64 is the latency of one
  -- call of the assembly, the one in the order of the pairs, whose array begins with just these two.
  pub run_stlf_test_lem :
      (arr : List ℕ)
      → length arr ≡ 32
      → (results : List fl.Real) × (run_stlf_test fl unset stlf_func readings iterations (some arr)
          ≡ some (filled results))
        × ((st l : ℕ)
            → st < 64
            → l < 64
            → IsLatency st l
                (st * 64 + l)
                (stlf_printed fl unset stlf_func readings iterations results st l))
  unfolding run_stlf_test stlf_printed
  run_stlf_test_lem arr line =
      let start : StlfState fl.Real = record {
        arr = arr;
        stlf_results = replicate 4096 unset;
        measured = 0;
      } in
      let run =
        store_loop-Fills 64 0 start (record { line = line; table = length-replicate 4096 unset })
          refl (omega arith) in
      (
        run.out.stlf_results,
        rw (run.returns, ◌>>=◌) refl,
        λ st l st_lt l_lt. run.fresh st l l_lt (omega arith) (omega arith),
      )
