-- ===== src/MemoryLatency/Tlb/Overrun.antt =====
-- RunTlbTest of MemoryLatency/MemoryLatency.c on a preallocated array: what it leaves of one with room
-- for its pages, and how it ends on one without.
use u_arch_test.Prelude.{
  ℕ, zero, suc, ◌+◌, ◌-◌, ◌*◌, ◌/◌, ◌^◌, ◌≤◌, ◌<◌, ◌≡◌, refl, subst, ◌∙◌, List, Option, none, some,
  get_elem?, length, length-set, set, store, store_lem, bind-none, u32, arith, ◌>>=◌,
}
use native.Mathlib.Decide.{dec_lt}
use u_arch_test.MemoryLatency.Machine.{Machine, Calls, IsLawful}
use u_arch_test.MemoryLatency.Chase.{Chased, scale_iterations}
use u_arch_test.MemoryLatency.Run.{Report, run_test}
use u_arch_test.MemoryLatency.Run.Laws.{run_test-Returns}
use u_arch_test.MemoryLatency.Run.Kept.{array_of, run_test-Kept}
use u_arch_test.MemoryLatency.Tlb.{
  page_slot, size_kb_of, tlb_list_size, make_pattern, memset_loop, translate_loop, tlb_on,
  difference, reference, tlb_array, tlb_pattern, run_tlb_test,
}
use u_arch_test.MemoryLatency.Tlb.Laws.{sizes, make_pattern-IsFilled, tlb_on-Measures}
use u_arch_test.MemoryLatency.Tlb.Pages.{memset_loop-Wrote}

store_out : (a : List ℕ) (i v : ℕ) → length a ≤ i → store a i v ≡ none
unfolding store
store_out a i v h = ground arith

memset_loop_overrun :
    (left i : ℕ) (a : List ℕ) → i ≤ length a → length a < i + left → memset_loop left i a ≡ none
unfolding memset_loop
memset_loop_overrun zero i a le over = absurd (omega arith)
memset_loop_overrun (suc left) i a le over = elim (dec_lt i (length a)) [
  | yes inside ↦
      rw (store_lem a i 0xffff_ffff inside, ◌>>=◌)
        (memset_loop_overrun left (i + 1) (set a i 0xffff_ffff)
          (omega (arith, length-set a i 0xffff_ffff)) (omega (arith, length-set a i 0xffff_ffff)))
  | no outside ↦ rw (store_out a i 0xffff_ffff (omega arith), ◌>>=◌) refl
]

-- Where some page's slot is beyond the array.
translate_loop_overrun :
    (p : List ℕ) (left i j : ℕ) (a : List ℕ)
    → i ≤ j
    → j < i + left
    → length a ≤ page_slot j
    → translate_loop p left i a ≡ none
unfolding translate_loop
translate_loop_overrun p zero i j a low high over = absurd (omega arith)
translate_loop_overrun p (suc left) i j a low high over = bind-none (get_elem? p i) (λ target.
    let v = u32 (page_slot target) in
    elim (dec_lt (page_slot i) (length a)) [
      | yes inside ↦
          rw (store_lem a (page_slot i) v inside, ◌>>=◌)
            (translate_loop_overrun p left (i + 1) j (set a (page_slot i) v) (omega arith)
              (omega arith) (omega (arith, length-set a (page_slot i) v)))
      | no outside ↦ rw (store_out a (page_slot i) v (omega arith), ◌>>=◌) refl
    ])

module _ (m : Machine) (entries iterations : ℕ) (some_entries : 0 < entries)
    (few : entries < 2 ^ 20) where
  tlb_on_overrun :
      (p a : List ℕ) (calls : Calls)
      → length a ≤ page_slot (entries - 1)
      → tlb_on m entries iterations p a calls ≡ none
  unfolding tlb_on
  tlb_on_overrun p a calls over =
      let cleared = tlb_list_size (size_kb_of entries) / 4 in
      elim (dec_lt (length a) cleared) [
        | yes beyond ↦ rw (memset_loop_overrun cleared 0 a (omega arith) (omega arith), ◌>>=◌) refl
        | no inside ↦
            let w = memset_loop-Wrote cleared 0 a (omega arith) in
            rw
              (
                w.returns,
                ◌>>=◌,
                (sizes entries some_entries few).0,
                translate_loop_overrun p entries 0 (entries - 1) w.out (omega arith) (omega arith)
                    (omega (arith, w.same_length)),
                ◌>>=◌,
              )
              refl
      ]

  -- On an array that ends before the slot of the last page the test faults.
  pub run_tlb_test_overrun :
      (a block : List ℕ) (calls : Calls)
      → m.malloc calls.allocated entries ≡ some block
      → length a ≤ page_slot (entries - 1)
      → run_tlb_test m entries iterations (some a) calls ≡ none
  unfolding run_tlb_test tlb_pattern tlb_array
  run_tlb_test_overrun a block calls got over =
      rw ((sizes entries some_entries few).0, got)
        (bind-none (make_pattern m entries iterations block calls.drawn) (λ made.
          rw
            (
              tlb_on_overrun made.0 a
                  (record { drawn = made.1; allocated = calls.allocated + 1; ticks = calls.ticks })
                  over,
              ◌>>=◌,
            )
            refl))

  -- The test, from the results of its steps.
  run_tlb_test_steps :
      (a block p memory : List ℕ) (drawn' : ℕ) (calls : Calls) (chased : Chased (m.floats.Real))
      (r : Report (m.floats.Real))
      → m.malloc calls.allocated entries ≡ some block
      → make_pattern m entries iterations block calls.drawn ≡ some (p, drawn')
      → tlb_on m entries iterations p a
          (record { drawn = drawn'; allocated = calls.allocated + 1; ticks = calls.ticks })
        ≡ some (memory, chased)
      → run_test m 4 iterations (some memory) chased.calls ≡ some r
      → run_tlb_test m entries iterations (some a) calls
        ≡ some (difference m entries iterations chased r)
  unfolding run_tlb_test tlb_pattern tlb_array reference
  run_tlb_test_steps a block p memory drawn' calls chased r got made on runs =
      rw ((sizes entries some_entries few).0, got, made, ◌>>=◌, on, ◌>>=◌, runs, ◌>>=◌) refl

  -- On an array with room for the pages it leaves one of the same length.
  pub run_tlb_test_kept :
      IsLawful m
      → u32 (scale_iterations m.floats (size_kb_of entries) iterations) < 2 ^ 31
      → u32 (scale_iterations m.floats 4 iterations) < 2 ^ 31
      → (a block : List ℕ) (calls : Calls) → m.malloc calls.allocated entries ≡ some block
      → entries * 1024 ≤ length a
      → (r : Report (m.floats.Real)) × (b : List ℕ) × (run_tlb_test m entries iterations
            (some a)
            calls
          ≡ some r)
        × (r.preallocated ≡ some b)
        × (length b ≡ length a)
  unfolding difference
  run_tlb_test_kept lawful few_rounds few_reference a block calls got room =
      let count = (sizes entries some_entries few).0 in
      let size = lawful.block calls.allocated entries block got in
      let made =
        make_pattern-IsFilled m entries iterations some_entries few few_rounds block calls.drawn
          (omega (arith, count)) in
      let calls' : Calls = record {
        drawn = made.drawn';
        allocated = calls.allocated + 1;
        ticks = calls.ticks;
      } in
      let run =
        tlb_on-Measures m entries iterations some_entries few few_rounds made.out a calls'
          made.single (omega (arith, made.same_length)) room in
      let enough : 1024 ≤ length run.memory = omega (arith, run.same_length) in
      let (r, runs, _) =
        run_test-Returns m 4 iterations (omega arith) (omega arith) few_reference lawful
          (some run.memory) run.chased.calls (omega (arith, enough)) in
      let (b, left, same) =
        run_test-Kept m 4 iterations (omega arith) (omega arith) few_reference lawful
          (some run.memory) run.chased.calls (omega (arith, enough)) in
      (
        difference m entries iterations run.chased r,
        b,
        run_tlb_test_steps a block made.out run.memory made.drawn' calls run.chased r got
            made.returns run.returns runs,
        subst (λ (o : Option (Report m.floats.Real)). array_of o ≡ some b) runs left,
        same ∙ run.same_length,
      )
