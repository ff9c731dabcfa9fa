-- ===== src/MemoryLatency/Asm.antt =====
-- RunAsmTest of MemoryLatency/MemoryLatency.c, with 64-bit pointers. The two assembly functions are
-- parameters: `preplatencyarr` makes pointers of the array's indices, and `latencytest` runs the
-- chase and returns its sum.
pub mod Laws
mod Tests
use u_arch_test.Prelude.{
  ℕ, zero, suc, ◌+◌, ◌*◌, ◌/◌, ◌==◌, false, List, Option, none, some, u32, store, ◌>>=◌,
}
use u_arch_test.Prelude.Int.{pos}
use u_arch_test.Timing.{elapsed_ns}
use u_arch_test.MemoryLatency.Machine.{Machine, Calls}
use u_arch_test.MemoryLatency.Pattern.{fill_pattern_arr64}
use u_arch_test.MemoryLatency.Chase.{scale_iterations}
use u_arch_test.MemoryLatency.Run.{cacheline_size, Report, no_memory}

abbrev pub pointer_size : ℕ
pointer_size = 8

-- `uint32_t list_size = size_kb * 1024 / POINTER_SIZE`
abbrev pub asm_list_size : ℕ → ℕ
asm_list_size size_kb = u32 (size_kb * 1024) / pointer_size

-- `memset(A, 0, bytes)` for a multiple of 8 bytes
pub zero_loop : (left i : ℕ) → List ℕ → Option (List ℕ)
zero_loop zero i a = some a
zero_loop (suc left) i a = do a' ← store a i 0; zero_loop left (i + 1) a'

module _ (m : Machine) (preplatencyarr : List ℕ → ℕ → List ℕ) (latencytest : ℕ → List ℕ → ℕ) where
  module _ (size_kb iterations : ℕ) where
    -- `uint32_t scaled_iterations = scale_iterations(size_kb, iterations)`
    abbrev pub scaled_of : ℕ
    scaled_of = u32 (scale_iterations m.floats size_kb iterations)

    -- From `memset` to `preplatencyarr`.
    pub prepared : List ℕ → (drawn : ℕ) → Option (List ℕ × ℕ)
    prepared a drawn = do
      a' ← zero_loop (u32 (pointer_size * asm_list_size size_kb) / 8) 0 a
      (a'', drawn') ← fill_pattern_arr64 m.rand a' (asm_list_size size_kb) cacheline_size drawn
      some (preplatencyarr a'' (asm_list_size size_kb), drawn')

    -- The timed call, and what the test returns.
    pub asm_report : (preallocated : Option (List ℕ)) → (a : List ℕ) → Calls → Report m.floats.Real
    asm_report preallocated a calls =
        let sum = u32 (latencytest scaled_of a) in
        let elapsed = elapsed_ns m.floats (m.clock calls.ticks) (m.clock (calls.ticks + 1)) in
        record {
          latency =
              m.floats.narrow
                (m.floats.div (m.floats.real (pos elapsed)) (m.floats.real (pos scaled_of)));
          warned = sum == 0;
          preallocated = preallocated;
          calls = record calls { ticks = calls.ticks + 2 };
        }

    -- The test on what malloc returned.
    pub asm_new : Option (List ℕ) → Calls → Option (Report m.floats.Real)
    asm_new none calls = some (no_memory m size_kb iterations calls)
    asm_new (some a) calls = do
      (a', drawn) ← prepared a calls.drawn
      some (asm_report none a' (record calls { drawn = drawn }))

    pub run_asm_test : (preallocated : Option (List ℕ)) → Calls → Option (Report m.floats.Real)
    run_asm_test (some a) calls = do
      (a', drawn) ← prepared a calls.drawn
      some (asm_report (some a') a' (record calls { drawn = drawn }))
    run_asm_test none calls =
        asm_new (m.malloc calls.allocated (asm_list_size size_kb))
          (record calls { allocated = calls.allocated + 1 })
