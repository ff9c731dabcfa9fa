-- ===== src/MemoryLatency/Tlb.antt =====
-- RunTlbTest of MemoryLatency/MemoryLatency.c: a chase that reads one slot per page.
pub mod Pages
pub mod Laws
pub mod Overrun
use u_arch_test.Prelude.{
  ℕ, zero, suc, ◌+◌, ◌-◌, ◌*◌, ◌/◌, ◌%◌, ◌^◌, ltb, ◌==◌, if◌then◌else◌, Bool, false, ◌&&◌, ◌||◌,
  List, Option, none, some, get_elem?, u32, store, block_slots, ◌>>=◌,
}
use u_arch_test.Prelude.Int.{pos}
use u_arch_test.MemoryLatency.Machine.{Machine, Calls}
use u_arch_test.MemoryLatency.Pattern.{fill}
use u_arch_test.MemoryLatency.Chase.{Chased, timed_chase, scale_iterations}
use u_arch_test.MemoryLatency.Run.{Report, no_memory, run_test}

-- PAGE_SIZE
abbrev pub page_size : ℕ
page_size = 4096

abbrev pub page_increment : ℕ
page_increment = page_size / 4

-- `i * pageIncrement + ((i * 16) & (pageIncrement - 1))`; the mask of a power of two is a remainder.
abbrev pub page_slot : ℕ → ℕ
page_slot i = i * page_increment + i * 16 % page_increment

abbrev pub size_kb_of : ℕ → ℕ
size_kb_of entries = u32 (entries * page_size) / 1024

abbrev pub tlb_list_size : ℕ → ℕ
tlb_list_size size_kb = u32 (size_kb * 1024) / 4

abbrev pub element_count_of : ℕ → ℕ
element_count_of size_kb =
    if u32 (size_kb * 1024) / page_size == 0 then 1 else u32 (size_kb * 1024) / page_size

-- `memset(A, INT_MAX, bytes)` for a multiple of 4 bytes: each byte becomes 0xff.
pub memset_loop : (left i : ℕ) → List ℕ → Option (List ℕ)
memset_loop zero i a = some a
memset_loop (suc left) i a = do a' ← store a i 0xffff_ffff; memset_loop left (i + 1) a'

-- Entry `i` of the pattern, translated to pages, goes to the slot of page `i`.
pub translate_loop : (pattern_arr : List ℕ) (left i : ℕ) → List ℕ → Option (List ℕ)
translate_loop pattern_arr zero i a = some a
translate_loop pattern_arr (suc left) i a = do
  target ← get_elem? pattern_arr i
  a' ← store a (page_slot i) (u32 (page_slot target))
  translate_loop pattern_arr left (i + 1) a'

module _ (m : Machine) (entries iterations : ℕ) where
  abbrev size_kb : ℕ
  size_kb = size_kb_of entries

  -- The pattern over 0, 1, 2, ..., in a block of its own, by the loops of FillPatternArr.
  pub make_pattern : List ℕ → (drawn : ℕ) → Option (List ℕ × ℕ)
  make_pattern block drawn = fill m.rand 1 (element_count_of size_kb) block drawn

  -- From `memset` to the end of the timed loop.
  pub tlb_on : (pattern_arr a : List ℕ) → Calls → Option (List ℕ × Chased (m.floats.Real))
  tlb_on pattern_arr a calls = do
    a' ← memset_loop (tlb_list_size size_kb / 4) 0 a
    a'' ← translate_loop pattern_arr (element_count_of size_kb) 0 a'
    chased ← timed_chase m a'' (u32 (scale_iterations m.floats size_kb iterations)) calls
    some (a'', chased)

  -- What the test returns, with RunTest's report for reference.
  pub difference : Chased (m.floats.Real) → Report (m.floats.Real) → Report (m.floats.Real)
  difference chased cache = record {
    latency =
        m.floats.narrow
          (m.floats.fmax (m.floats.real (pos 0)) (m.floats.sub chased.latency cache.latency));
    warned = (ltb 1 (element_count_of size_kb) && (chased.sum == 0)) || cache.warned;
    preallocated = cache.preallocated;
    calls = cache.calls;
  }

  -- `RunTest(4, iterations, preallocatedArr)` follows the timed loop.
  pub reference : Option (List ℕ) → Chased (m.floats.Real) → Option (Report (m.floats.Real))
  reference preallocated chased = do
    cache ← run_test m 4 iterations preallocated chased.calls
    some (difference chased cache)

  -- The test on the array that malloc returned. Where that is NULL, the source prints a message and
  -- goes on with it; at NULL there are no slots to write.
  pub tlb_new : (pattern_arr : List ℕ) → Option (List ℕ) → Calls → Option (Report (m.floats.Real))
  tlb_new pattern_arr block calls = do
    (a', chased) ← tlb_on pattern_arr (block_slots block) calls
    reference none chased

  pub tlb_array :
      (pattern_arr : List ℕ)
      → (preallocated : Option (List ℕ)) → Calls
      → Option (Report (m.floats.Real))
  tlb_array pattern_arr (some a) calls = do
    (a', chased) ← tlb_on pattern_arr a calls
    reference (some a') chased
  tlb_array pattern_arr none calls =
      tlb_new pattern_arr (m.malloc calls.allocated (tlb_list_size size_kb))
        (record calls { allocated = calls.allocated + 1 })

  -- The test on the block for the pattern.
  pub tlb_pattern :
      Option (List ℕ) → (preallocated : Option (List ℕ)) → Calls → Option (Report (m.floats.Real))
  tlb_pattern none preallocated calls =
      some (record (no_memory m size_kb iterations calls) { preallocated = preallocated })
  tlb_pattern (some block) preallocated calls = do
    (pattern_arr, drawn) ← make_pattern block calls.drawn
    tlb_array pattern_arr preallocated (record calls { drawn = drawn })

  pub run_tlb_test : (preallocated : Option (List ℕ)) → Calls → Option (Report (m.floats.Real))
  run_tlb_test preallocated calls =
      tlb_pattern (m.malloc calls.allocated (element_count_of size_kb)) preallocated
        (record calls { allocated = calls.allocated + 1 })
