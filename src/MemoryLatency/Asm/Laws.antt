-- ===== src/MemoryLatency/Asm/Laws.antt =====
-- RunAsmTest of MemoryLatency/MemoryLatency.c: the array that its assembly works on.
use u_arch_test.Prelude.{
  ℕ, zero, suc, ◌+◌, ◌*◌, ◌/◌, ◌%◌, ◌^◌, ◌≤◌, ◌<◌, ◌≡◌, ◌≢◌, refl, sym, subst, ap, ◌∙◌, ◌==◌, Bool,
  false, List, Option, none, some, get_elem?, get_elem?-set_self, get_elem?-set_ne, length,
  length-set, set, store_lem, u32, ◌>>=◌, arith,
}
use u_arch_test.Prelude.Int.{pos}
use u_arch_test.MemoryLatency.Machine.{Machine, Calls, IsLawful}
use u_arch_test.MemoryLatency.Pattern.Cycle.{stride}
use u_arch_test.MemoryLatency.Pattern.Fill.{IsSingleCycle, fill_pattern_arr64-IsFilled}
use u_arch_test.MemoryLatency.Run.{Report, no_memory}
use u_arch_test.MemoryLatency.Asm.{
  asm_list_size, zero_loop, scaled_of, prepared, asm_report, asm_new, run_asm_test,
}
use native.Mathlib.Decide.{ℕ_discrete}

-- Some slots from an index on are cleared, and no earlier one changes.
record Zeroed (left i : ℕ) (a : List ℕ) (r : Option (List ℕ)) : Type 0 where
  out : List ℕ
  returns : r ≡ some out
  same : length out ≡ length a
  fresh : (k : ℕ) → i ≤ k → k < i + left → get_elem? out k ≡ some 0
  before : (k : ℕ) → k < i → get_elem? out k ≡ get_elem? a k

zero_loop-Zeroed :
    (left i : ℕ) (a : List ℕ) → i + left ≤ length a → Zeroed left i a (zero_loop left i a)
unfolding zero_loop
zero_loop-Zeroed zero i a room = record {
  out = a;
  returns = refl;
  same = refl;
  fresh = λ k h lt. absurd (omega arith);
  before = λ k lt. refl;
}
zero_loop-Zeroed (suc left) i a room =
    let rest = zero_loop-Zeroed left (i + 1) (set a i 0) (omega (arith, length-set a i 0)) in
    record {
      out = rest.out;
      returns = rw (store_lem a i 0 (omega arith), ◌>>=◌) rest.returns;
      same = rest.same ∙ length-set a i 0;
      fresh = λ k h lt. elim (ℕ_discrete i k) [
        | yes e ↦
            rest.before k (omega arith)
            ∙ ap (get_elem? (set a i 0)) (sym e)
            ∙ get_elem?-set_self a i 0 (omega arith)
        | no ne ↦ rest.fresh k (omega arith) (omega arith)
      ];
      before = λ k lt.
          rest.before k (omega arith) ∙ get_elem?-set_ne a i k 0 (λ e. absurd (omega arith));
    }

module _ (m : Machine) (preplatencyarr : List ℕ → ℕ → List ℕ) (latencytest : ℕ → List ℕ → ℕ)
    (size_kb iterations : ℕ) (some_size : 0 < size_kb) (small : size_kb < 2 ^ 22) where
  list_size_lem : asm_list_size size_kb ≡ size_kb * 128
  list_size_lem = omega arith

  -- The array that the assembly gets: its cache lines in one cycle, and zeros in between.
  pub record Pointers (memory : List ℕ) : Type 0 where
    pub single : IsSingleCycle (stride 8) (size_kb * 16) memory
    pub zeros : (k : ℕ) → k < size_kb * 128 → k % 8 ≢ 0 → get_elem? memory k ≡ some 0

  record IsReady (a : List ℕ) (drawn : ℕ) : Type 0 where
    memory : List ℕ
    drawn' : ℕ
    returns :
        prepared m preplatencyarr latencytest size_kb iterations a drawn
        ≡ some (preplatencyarr memory (asm_list_size size_kb), drawn')
    pointers : Pointers memory

  prepared-IsReady : (a : List ℕ) (drawn : ℕ) → size_kb * 128 ≤ length a → IsReady a drawn
  unfolding prepared
  prepared-IsReady a drawn room =
      let zeroed =
        zero_loop-Zeroed (u32 (8 * asm_list_size size_kb) / 8) 0 a (omega (arith, list_size_lem)) in
      let filled =
        fill_pattern_arr64-IsFilled m.rand zeroed.out (asm_list_size size_kb) 64 drawn
          (omega (arith, list_size_lem, zeroed.same)) (omega (arith, list_size_lem)) (omega arith)
          (omega arith) (omega (arith, list_size_lem)) in
      record {
        memory = filled.out;
        drawn' = filled.drawn';
        returns = rw (zeroed.returns, ◌>>=◌, filled.returns, ◌>>=◌) refl;
        pointers = record {
          single =
              subst (λ n. IsSingleCycle (stride 8) n filled.out) (omega (arith, list_size_lem))
                filled.single;
          zeros = λ k lt off.
              filled.kept k (λ x h e. off (omega arith))
              ∙ zeroed.fresh k (omega arith) (omega (arith, list_size_lem));
        };
      }

  -- A preallocated array has room for the test.
  abbrev pub AsmFits : Option (List ℕ) → Type 0
  AsmFits none = Unit
  AsmFits (some a) = size_kb * 128 ≤ length a

  -- What is promised of a run on an array, and of one that got none: the assembly works on
  -- pointers in one cycle, and the warning tells whether the sum that it returns is 0.
  abbrev pub AsmOutcome : Option (List ℕ) → Report m.floats.Real → Type 0
  AsmOutcome none r = (r.latency ≡ m.floats.real (pos 0)) × (r.warned ≡ false)
  AsmOutcome (some a) r =
      (memory : List ℕ) × Pointers memory
      × (r.warned ≡ (
          u32 (
            latencytest (scaled_of m preplatencyarr latencytest size_kb iterations)
              (preplatencyarr memory (size_kb * 128)))
          == 0))

  -- The array that the test works on.
  abbrev pub asm_array : Option (List ℕ) → Calls → Option (List ℕ)
  asm_array (some a) calls = some a
  asm_array none calls = m.malloc calls.allocated (asm_list_size size_kb)

  asm_sum : List ℕ → (list_size : ℕ) → Bool
  asm_sum memory list_size =
      u32 (
        latencytest (scaled_of m preplatencyarr latencytest size_kb iterations)
          (preplatencyarr memory list_size))
      == 0

  warning :
      (memory : List ℕ) → asm_sum memory (asm_list_size size_kb) ≡ asm_sum memory (size_kb * 128)
  warning memory = ap (asm_sum memory) list_size_lem

  asm_new-Returns :
      (block : Option (List ℕ)) (calls : Calls)
      → ((a : List ℕ) → block ≡ some a → size_kb * 128 ≤ length a)
      → (r : Report m.floats.Real) × (asm_new m preplatencyarr latencytest size_kb iterations block
            calls
          ≡ some r)
        × AsmOutcome block r
  unfolding asm_new asm_report no_memory asm_sum
  asm_new-Returns none calls room = (no_memory m size_kb iterations calls, refl, (refl, refl))
  asm_new-Returns (some a) calls room =
      let run = prepared-IsReady a calls.drawn (room a refl) in
      (
        asm_report m preplatencyarr latencytest size_kb iterations none
            (preplatencyarr run.memory (asm_list_size size_kb))
            (record calls { drawn = run.drawn' }),
        rw (run.returns, ◌>>=◌) refl,
        (run.memory, run.pointers, warning run.memory),
      )

  -- RunAsmTest, for 1 to 2 ^ 22 - 1 kilobytes, a preallocated array with room for the list and a
  -- malloc that returns the size asked for or NULL: it returns without a fault. With no memory it
  -- returns 0. Otherwise preplatencyarr gets an array whose cache lines are linked in one cycle, with
  -- zeros in all other slots, and it warns exactly if latencytest returns 0 for what that makes of it.
  pub run_asm_test-Returns :
      IsLawful m
      → (preallocated : Option (List ℕ)) (calls : Calls) → AsmFits preallocated
      → (r : Report m.floats.Real) × (run_asm_test m preplatencyarr latencytest size_kb iterations
            preallocated calls
          ≡ some r)
        × AsmOutcome (asm_array preallocated calls) r
  unfolding run_asm_test asm_report asm_sum
  run_asm_test-Returns lawful (some a) calls room =
      let run = prepared-IsReady a calls.drawn room in
      let a' = preplatencyarr run.memory (asm_list_size size_kb) in
      (
        asm_report m preplatencyarr latencytest size_kb iterations (some a') a'
            (record calls { drawn = run.drawn' }),
        rw (run.returns, ◌>>=◌) refl,
        (run.memory, run.pointers, warning run.memory),
      )
  run_asm_test-Returns lawful none calls room =
      asm_new-Returns (m.malloc calls.allocated (asm_list_size size_kb))
        (record calls { allocated = calls.allocated + 1 })
        (λ a e.
          omega (arith, list_size_lem, lawful.block calls.allocated (asm_list_size size_kb) a e))
