-- ===== src/MemoryBandwidth/Threads.antt =====
-- The arrays of MeasureBw in MemoryBandwidth/MemoryBandwidth.c and the function that its threads run,
-- ReadBandwidthTestThread, where bw_func is scalar_read.
pub mod Laws
mod Tests
use u_arch_test.Prelude.{
  ℕ, zero, suc, ◌+◌, if◌then◌else◌, Bool, List, [], ◌∷◌, Option, none, some, u64, store, ◌>>=◌,
}
use u_arch_test.Prelude.Int.{pos}
use u_arch_test.Timing.{Floats}
use u_arch_test.MemoryBandwidth.Measure.{ThreadData, Environment, elements}
use u_arch_test.MemoryBandwidth.Scalar.{Loop, scalar_read}

module _ (env : Environment) (size_kb iterations threads : ℕ) (shared : Bool) where
  abbrev pub Real : Type 0
  Real = env.floats.Real

  -- `i + 0.5f` in the shared array, `arr_idx + i + 0.5f` in that of thread `i`.
  pub element_value : (array arr_idx : ℕ) → Real
  element_value array arr_idx =
      let fl = env.floats in
      let index = if shared then arr_idx else u64 (arr_idx + array) in
      fl.narrow
        (fl.add (fl.narrow (fl.real (pos index))) (fl.div (fl.real (pos 1)) (fl.real (pos 2))))

  -- The loop that fills an array, with `left` rounds to go.
  pub fill_loop : (array left arr_idx : ℕ) → List Real → Option (List Real)
  fill_loop array zero arr_idx arr = some arr
  fill_loop array (suc left) arr_idx arr = do
    arr' ← store arr arr_idx (element_value array arr_idx)
    fill_loop array left (arr_idx + 1) arr'

  -- `unset k` is what posix_memalign leaves in array `k`.
  module _ (unset : ℕ → List Real) where
    pub filled_array : (array : ℕ) → Option (List Real)
    filled_array array =
        fill_loop array (elements env size_kb iterations threads shared) 0 (unset array)

    -- `bw_func(bwTestData->arr, bwTestData->arr_length, bwTestData->iterations, bwTestData->start)`;
    -- no thread writes to an array, so that each reads what the loop above left.
    pub read_bandwidth_test_thread : (fuel : ℕ) → ThreadData → Option (Loop Real)
    read_bandwidth_test_thread fuel d = do
      arr ← filled_array d.array
      some (scalar_read env.floats arr d.arr_length d.iterations d.start fuel)
