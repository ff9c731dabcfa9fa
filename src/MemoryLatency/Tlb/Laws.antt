-- ===== src/MemoryLatency/Tlb/Laws.antt =====
-- RunTlbTest of MemoryLatency/MemoryLatency.c: where its chase goes, and its run without memory.
use u_arch_test.Prelude.{
  ℕ, zero, suc, store, [], ◌+◌, ◌*◌, ◌/◌, ◌^◌, ◌≤◌, ◌<◌, ◌≡◌, refl, subst, ◌∙◌, List, Option, none,
  some, length, u32, arith, ◌>>=◌,
}
use mathlib.Core.Option.{some-injective, none-ne-some}
use u_arch_test.MemoryLatency.Machine.{Machine, Calls, IsLawful}
use u_arch_test.MemoryLatency.Pattern.Cycle.{stride}
use u_arch_test.MemoryLatency.Pattern.Fill.{IsSingleCycle, IsFilled, fill-IsFilled}
use u_arch_test.MemoryLatency.Chase.{Chased, timed_chase, scale_iterations}
use u_arch_test.MemoryLatency.Chase.Tour.{Tours, timed_chase-Tours}
use u_arch_test.MemoryLatency.Run.{Report}
use u_arch_test.MemoryLatency.Run.Laws.{Measures, run_test-Returns}
use u_arch_test.MemoryLatency.Tlb.{
  page_slot, size_kb_of, tlb_list_size, element_count_of, make_pattern, memset_loop, translate_loop,
  tlb_on, difference, reference, tlb_new, tlb_array, tlb_pattern, run_tlb_test,
}
use u_arch_test.MemoryLatency.Tlb.Pages.{
  Wrote, memset_loop-Wrote, Translated, translate_loop-Translated, IsSingleCycle-Mapped,
}

pub sizes :
    (entries : ℕ)
    → 0 < entries
    → entries < 2 ^ 20
    → (element_count_of (size_kb_of entries) ≡ entries)
      × (tlb_list_size (size_kb_of entries) ≡ entries * 1024)
sizes entries some_entries few = (ground arith, omega arith)

module _ (m : Machine) (entries iterations : ℕ) (some_entries : 0 < entries)
    (few : entries < 2 ^ 20)
    (few_rounds : u32 (scale_iterations m.floats (size_kb_of entries) iterations) < 2 ^ 31) where
  abbrev rounds : ℕ
  rounds = u32 (scale_iterations m.floats (size_kb_of entries) iterations)

  count_eq : element_count_of (size_kb_of entries) ≡ entries
  count_eq = (sizes entries some_entries few).0

  size_eq : tlb_list_size (size_kb_of entries) ≡ entries * 1024
  size_eq = (sizes entries some_entries few).1

  pub make_pattern-IsFilled :
      (block : List ℕ) (drawn : ℕ)
      → length block ≡ element_count_of (size_kb_of entries)
      → IsFilled 1 entries block (make_pattern m entries iterations block drawn)
  unfolding make_pattern
  make_pattern-IsFilled block drawn e = rw count_eq (
      fill-IsFilled m.rand 1 entries block drawn (omega arith) some_entries (omega arith)
        (omega arith) (omega (arith, count_eq)))

  pub tlb_on-Measures :
      (p a : List ℕ) (calls : Calls)
      → IsSingleCycle (stride 1) entries p
      → entries ≤ length p
      → entries * 1024 ≤ length a
      → Measures page_slot entries rounds m.floats.Real a (tlb_on m entries iterations p a calls)
  unfolding tlb_on
  tlb_on-Measures p a calls cycle whole room = record {
    memory = translated.out;
    chased = tour.out;
    returns = rw (cleared.returns, ◌>>=◌, count_eq, translated.returns, ◌>>=◌, tour.returns) refl;
    same_length = translated.same_length ∙ cleared.same_length;
    single = single;
    ends = tour.ends;
    sums = tour.sums;
  }
    where
      cleared : Wrote a (memset_loop (tlb_list_size (size_kb_of entries) / 4) 0 a)
      cleared =
          memset_loop-Wrote (tlb_list_size (size_kb_of entries) / 4) 0 a (omega (arith, size_eq))

      translated :
          Translated entries p
            (omega arith)
            whole
            cleared.out
            (translate_loop p entries 0 cleared.out)
      translated =
          translate_loop-Translated entries p (omega arith) whole entries 0 cleared.out
            (omega arith) (rw cleared.same_length room) (λ x h. absurd (omega arith))

      single : IsSingleCycle page_slot entries translated.out
      single =
          IsSingleCycle-Mapped entries p (omega arith) whole translated.out translated.mapped cycle

      tour :
          Tours page_slot entries rounds m.floats.Real translated.out single
            (timed_chase m translated.out rounds calls)
      tour =
          timed_chase-Tours m page_slot entries rounds translated.out calls refl few_rounds single

  module _ (lawful : IsLawful m)
      (few_reference : u32 (scale_iterations m.floats 4 iterations) < 2 ^ 31) where
    abbrev Returns : Option (Report (m.floats.Real)) → Type 0
    Returns o = (r : Report (m.floats.Real)) × (o ≡ some r)

    reference-Returns :
        (preallocated : Option (List ℕ)) (chased : Chased (m.floats.Real))
        → ((a : List ℕ) → preallocated ≡ some a → entries * 1024 ≤ length a)
        → Returns (reference m entries iterations preallocated chased)
    unfolding reference
    reference-Returns none chased room =
        let (r, runs, _) =
          run_test-Returns m 4 iterations (omega arith) (omega arith) few_reference lawful none
            chased.calls tt in
        (difference m entries iterations chased r, rw (runs, ◌>>=◌) refl)
    reference-Returns (some a) chased room =
        let (r, runs, _) =
          run_test-Returns m 4 iterations (omega arith) (omega arith) few_reference lawful (some a)
            chased.calls (omega (arith, room a refl)) in
        (difference m entries iterations chased r, rw (runs, ◌>>=◌) refl)

    -- The array with room for the pages: the preallocated one, or the block of malloc call `k`.
    abbrev pub Supplied : Option (List ℕ) → ℕ → List ℕ → Type 0
    Supplied (some b) k a = (b ≡ a) × (entries * 1024 ≤ length b)
    Supplied none k a = m.malloc k (entries * 1024) ≡ some a

    module _ (p a : List ℕ) (calls : Calls) (cycle : IsSingleCycle (stride 1) entries p)
        (whole : entries ≤ length p) where
      tlb_array-Returns :
          (preallocated : Option (List ℕ))
          → Supplied preallocated calls.allocated a
          → Returns (tlb_array m entries iterations p preallocated calls)
      unfolding tlb_array tlb_new
      tlb_array-Returns none given =
          let calls' : Calls = record calls { allocated = calls.allocated + 1 } in
          let run =
            tlb_on-Measures p a calls' cycle whole
              (omega (arith, lawful.block calls.allocated (entries * 1024) a given)) in
          let (r, runs) = reference-Returns none run.chased (λ c e. absurd (none-ne-some c e)) in
          (r, rw (size_eq, given, run.returns, ◌>>=◌) runs)
      tlb_array-Returns (some b) given =
          let run = tlb_on-Measures p b calls cycle whole given.1 in
          let (r, runs) = reference-Returns (some run.memory) run.chased (λ c e.
            subst (λ t. entries * 1024 ≤ length t) (some-injective run.memory c e)
              (rw run.same_length given.1)) in
          (r, rw (run.returns, ◌>>=◌) runs)

    -- RunTlbTest, for 1 to 2 ^ 20 - 1 pages and fewer than 2 ^ 31 scaled iterations in both
    -- chases, where malloc gives the block for the pattern and there is an array for the pages: it
    -- returns without a fault, and its chase runs over an array of the same length along one cycle
    -- through all pages, a slot of its own in each.
    pub run_tlb_test-Returns :
        (preallocated : Option (List ℕ)) (calls : Calls) (block a : List ℕ)
        → m.malloc calls.allocated entries ≡ some block
        → Supplied preallocated (calls.allocated + 1) a
        → ((r : Report (m.floats.Real)) × (run_tlb_test m entries iterations preallocated calls
              ≡ some r))
          × ((p : List ℕ) × (drawn : ℕ) × (make_pattern m entries iterations block calls.drawn
                ≡ some (p, drawn))
              × ((c : Calls)
                  → Measures page_slot entries rounds m.floats.Real a
                      (tlb_on m entries iterations p a c)))
    unfolding run_tlb_test tlb_pattern
    run_tlb_test-Returns preallocated calls block a got given =
        let size = lawful.block calls.allocated entries block got in
        let made = make_pattern-IsFilled block calls.drawn (omega (arith, count_eq)) in
        let whole : entries ≤ length made.out = omega (arith, made.same_length) in
        let (r, runs) =
          tlb_array-Returns made.out a
            (record { drawn = made.drawn'; allocated = calls.allocated + 1; ticks = calls.ticks })
            made.single whole preallocated given in
        (
          (r, rw (count_eq, got, made.returns, ◌>>=◌) runs),
          (
            made.out,
            made.drawn',
            made.returns,
            λ c. tlb_on-Measures made.out a c made.single whole (room preallocated given),
          ),
        )
      where
        room :
            (q : Option (List ℕ)) → Supplied q (calls.allocated + 1) a → entries * 1024 ≤ length a
        room (some b) g = subst (λ t. entries * 1024 ≤ length t) g.0 g.1
        room none g = omega (arith, lawful.block (calls.allocated + 1) (entries * 1024) a g)

  memset_loop_null : (left : ℕ) → 0 < left → memset_loop left 0 [] ≡ none
  unfolding memset_loop store
  memset_loop_null zero h = absurd (omega arith)
  memset_loop_null (suc left) h = refl

  -- At NULL already the first store of `memset` faults.
  tlb_on_null : (p : List ℕ) (calls : Calls) → tlb_on m entries iterations p [] calls ≡ none
  unfolding tlb_on
  tlb_on_null p calls =
      rw (memset_loop_null (tlb_list_size (size_kb_of entries) / 4) (omega (arith, size_eq)), ◌>>=◌)
        refl

  -- Without a preallocated array, and where malloc gives the pattern's block but not the array,
  -- RunTlbTest does not report the failure: it faults, since it clears memory at NULL.
  pub run_tlb_test_null :
      (calls : Calls) (block : List ℕ)
      → m.malloc calls.allocated entries ≡ some block
      → length block ≡ entries
      → m.malloc (calls.allocated + 1) (entries * 1024) ≡ none
      → run_tlb_test m entries iterations none calls ≡ none
  unfolding run_tlb_test tlb_pattern tlb_array tlb_new
  run_tlb_test_null calls block got size failed =
      let made = make_pattern-IsFilled block calls.drawn (omega (arith, count_eq)) in
      rw
        (
          count_eq,
          got,
          made.returns,
          ◌>>=◌,
          size_eq,
          failed,
          tlb_on_null made.out (record {
            drawn = made.drawn';
            allocated = calls.allocated + 1 + 1;
            ticks = calls.ticks;
          }),
          ◌>>=◌,
        )
        refl
