-- ===== src/MemoryLatency/Stlf.antt =====
-- RunStlfTest of MemoryLatency/MemoryLatency.c: a table of latencies of a load after a store, for all
-- pairs of offsets in a cache line.
pub mod Laws
mod Tests
use u_arch_test.Prelude.{
  ℕ, zero, suc, ◌+◌, ◌*◌, List, Option, none, some, get_elem?, replicate, store, ◌>>=◌,
}
use u_arch_test.Prelude.Int.{pos}
use u_arch_test.Timing.{Floats, Timespec, elapsed_ns}

-- `arr`, two cache lines of 32-bit slots; `stlfResults`, row by row; and the number of measurements.
pub record StlfState (Real : Type 0) : Type 0 where
  pub arr : List ℕ
  pub stlf_results : List Real
  pub measured : ℕ

-- How the function ends.
pub data StlfEnded (Real : Type 0) : Type 0 where
  no_aligned_memory : StlfEnded Real
  filled : (stlf_results : List Real) → StlfEnded Real

-- `stlf_func iterations arr` is what the assembly leaves in the array, `readings k arr` the two
-- readings of the clock around its k-th call, on an array that holds `arr`; `unset` is what the
-- table holds at first.
module _ (fl : Floats) (unset : fl.Real) (stlf_func : ℕ → List ℕ → List ℕ)
    (readings : ℕ → List ℕ → Timespec × Timespec) (iterations : ℕ) where
  -- `latency = (double)time_diff_ns / (double)iterations`
  pub stlf_latency : Timespec × Timespec → fl.Real
  stlf_latency (start, end) =
      fl.narrow (fl.div (fl.real (pos (elapsed_ns fl start end))) (fl.real (pos iterations)))

  -- The body of both loops.
  pub stlf_pair : (store_offset load_offset : ℕ) → StlfState fl.Real → Option (StlfState fl.Real)
  stlf_pair store_offset load_offset s = do
    arr' ← store s.arr 0 store_offset
    arr'' ← store arr' 1 load_offset
    results ←
        store s.stlf_results (store_offset * 64 + load_offset)
          (stlf_latency (readings s.measured arr''))
    some (record {
      arr = stlf_func iterations arr'';
      stlf_results = results;
      measured = s.measured + 1;
    })

  -- The inner loop over the offsets of the load, and the outer one over those of the store, with
  -- `left` rounds to go.
  pub load_loop :
      (store_offset left load_offset : ℕ) → StlfState fl.Real → Option (StlfState fl.Real)
  load_loop store_offset zero load_offset s = some s
  load_loop store_offset (suc left) load_offset s = do
    s' ← stlf_pair store_offset load_offset s
    load_loop store_offset left (load_offset + 1) s'

  pub store_loop : (left store_offset : ℕ) → StlfState fl.Real → Option (StlfState fl.Real)
  store_loop zero store_offset s = some s
  store_loop (suc left) store_offset s = do
    s' ← load_loop store_offset 64 0 s
    store_loop left (store_offset + 1) s'

  -- The test on what posix_memalign gives.
  pub run_stlf_test : (block : Option (List ℕ)) → Option (StlfEnded fl.Real)
  run_stlf_test none = some no_aligned_memory
  run_stlf_test (some arr) = do
    s ← store_loop 64 0 (record { arr = arr; stlf_results = replicate 4096 unset; measured = 0 })
    some (filled s.stlf_results)

  -- What is printed for a pair of offsets.
  pub stlf_printed : (stlf_results : List fl.Real) (store_offset load_offset : ℕ) → Option fl.Real
  stlf_printed stlf_results store_offset load_offset =
      get_elem? stlf_results (store_offset * 64 + load_offset)
