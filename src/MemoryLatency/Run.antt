-- ===== src/MemoryLatency/Run.antt =====
-- RunTest of MemoryLatency/MemoryLatency.c.
pub mod Laws
pub mod Kept
use u_arch_test.Prelude.{ℕ, ◌+◌, ◌*◌, ◌/◌, ◌==◌, Bool, false, List, Option, none, some, u32, ◌>>=◌}
use u_arch_test.Prelude.Int.{pos}
use u_arch_test.MemoryLatency.Machine.{Machine, Calls}
use u_arch_test.MemoryLatency.Pattern.{fill_pattern_arr}
use u_arch_test.MemoryLatency.Chase.{Chased, timed_chase, scale_iterations}

-- CACHELINE_SIZE
abbrev pub cacheline_size : ℕ
cacheline_size = 64

-- What a test returns, whether it printed its warning, and the preallocated array, if there is one,
-- as it leaves it.
pub record Report (Real : Type 0) : Type 0 where
  pub latency : Real
  pub warned : Bool
  pub preallocated : Option (List ℕ)
  pub calls : Calls

-- `uint32_t list_size = size_kb * 1024 / 4`
abbrev pub list_size_of : ℕ → ℕ
list_size_of size_kb = u32 (size_kb * 1024) / 4

module _ (m : Machine) (size_kb iterations : ℕ) where
  -- From `FillPatternArr(A, list_size, CACHELINE_SIZE)` to the end of the timed loop.
  pub run_on : List ℕ → Calls → Option (List ℕ × Chased (m.floats.Real))
  run_on a calls = do
    (a', drawn) ← fill_pattern_arr m.rand a (list_size_of size_kb) cacheline_size calls.drawn
    let scaled_iterations = u32 (scale_iterations m.floats size_kb iterations)
    chased ← timed_chase m a' scaled_iterations (record calls { drawn = drawn })
    some (a', chased)

  -- The two ends of the test: no memory, and a measurement.
  unfoldable pub no_memory : Calls → Report (m.floats.Real)
  no_memory calls = record {
    latency = m.floats.real (pos 0);
    warned = false;
    preallocated = none;
    calls = calls;
  }

  pub report : Option (List ℕ) → Chased (m.floats.Real) → Report (m.floats.Real)
  report preallocated chased = record {
    latency = m.floats.narrow chased.latency;
    warned = chased.sum == 0;
    preallocated = preallocated;
    calls = chased.calls;
  }

  -- The test on what malloc returned.
  pub run_new : Option (List ℕ) → Calls → Option (Report (m.floats.Real))
  run_new none calls = some (no_memory calls)
  run_new (some a) calls = do (a', chased) ← run_on a calls; some (report none chased)

  pub run_test : (preallocated : Option (List ℕ)) → Calls → Option (Report (m.floats.Real))
  run_test (some a) calls = do (a', chased) ← run_on a calls; some (report (some a') chased)
  run_test none calls =
      run_new (m.malloc calls.allocated (list_size_of size_kb))
        (record calls { allocated = calls.allocated + 1 })
