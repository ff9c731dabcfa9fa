-- ===== src/MemoryBandwidth/Threads/Tests.antt =====
-- An example of the threads of MeasureBw.
use u_arch_test.Prelude.{
  ℕ, ◌+◌, ◌*◌, ◌≡◌, refl, true, false, List, [], ◌∷◌, some, All, length-replicate, replicate, arith,
}
use u_arch_test.Prelude.Int.{ℤ, pos}
use u_arch_test.MemoryBandwidth.Measure.{
  ThreadData, measured, elements, counted_bytes, bandwidth, measure_bw,
}
use u_arch_test.MemoryBandwidth.Measure.Tests.{environment, environment-HasMemory}
use u_arch_test.MemoryBandwidth.Threads.{element_value, fill_loop}
use u_arch_test.MemoryBandwidth.Threads.Laws.{Reads, measure_bw-Reads}

-- With division of whole numbers, 0.5 is 0 here.
fill_loop_run :
    fill_loop (environment false) 8 10 3 false 2 3 0 (replicate 4 (pos 9))
    ≡ some (pos 2 ∷ pos 3 ∷ pos 4 ∷ pos 9 ∷ [])
unfolding fill_loop element_value u_arch_test.Prelude.store
fill_loop_run = refl

-- What posix_memalign leaves.
abbrev blank_array : ℕ → List ℤ
blank_array k = replicate 768 (pos 0)

measure_bw-Reads_example :
    (ds : List ThreadData) × (measure_bw (environment false) 8 10 3 false
      ≡ measured ds
          (counted_bytes (environment false) 8 10 3 false)
          (bandwidth (environment false) 8 10 3 false)
          [])
    × All (Reads (environment false) 8 10 3 false blank_array) ds
unfolding elements
measure_bw-Reads_example =
    measure_bw-Reads (environment false) 8 10 3 false blank_array
      (λ k. length-replicate 768 (pos 0)) (omega arith) (omega arith) (omega arith) (omega arith)
      (λ k. refl) (environment-HasMemory false) (λ e. omega arith)
