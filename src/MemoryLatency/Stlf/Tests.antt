-- ===== src/MemoryLatency/Stlf/Tests.antt =====
-- An example of RunStlfTest.
use u_arch_test.Prelude.{ℕ, ◌+◌, ◌*◌, ◌<◌, ◌≡◌, refl, List, some, replicate}
use u_arch_test.Prelude.Int.{pos}
use u_arch_test.Timing.{Timespec}
use u_arch_test.Timing.Tests.{integers}
use u_arch_test.MemoryLatency.Stlf.{filled, run_stlf_test, stlf_printed}
use u_arch_test.MemoryLatency.Stlf.Laws.{IsLatency, run_stlf_test_lem}

abbrev lines : List ℕ
lines = replicate 32 0

abbrev leaves : ℕ → List ℕ → List ℕ
leaves n arr = arr

abbrev ticks : ℕ → List ℕ → Timespec × Timespec
ticks k arr = (record { sec = k; nsec = 0 }, record { sec = k; nsec = 8 + k })

run_stlf_test_lem_example :
    (results : List integers.Real) × (run_stlf_test integers
        (integers.real (pos 0))
        leaves
        ticks
        4
        (some lines)
      ≡ some (filled results))
    × ((st l : ℕ)
        → st < 64
        → l < 64
        → IsLatency integers
            (integers.real (pos 0))
            leaves
            ticks
            4
            (λ n arr. refl)
            st
            l
            (st * 64 + l)
            (stlf_printed integers (integers.real (pos 0)) leaves ticks 4 results st l))
run_stlf_test_lem_example =
    run_stlf_test_lem integers (integers.real (pos 0)) leaves ticks 4 (λ n arr. refl) lines refl
