-- ===== src/MemoryLatency/Asm/Tests.antt =====
-- An example of RunAsmTest.
use u_arch_test.Prelude.{ℕ, ◌+◌, ◌*◌, ◌≡◌, List, none, some, map, arith}
use u_arch_test.Prelude.Int.{ℤ}
use u_arch_test.MemoryLatency.Tests.{machine, machine-IsLawful, no_calls}
use u_arch_test.MemoryLatency.Run.{Report}
use u_arch_test.MemoryLatency.Asm.{run_asm_test}
use u_arch_test.MemoryLatency.Asm.Laws.{AsmOutcome, asm_array, run_asm_test-Returns}

-- Addresses from 4096 on, and a sum that counts the loads.
abbrev addresses : List ℕ → ℕ → List ℕ
addresses a list_size = map (λ k. 4096 + 8 * k) a

abbrev loads : ℕ → List ℕ → ℕ
loads n a = n

run_asm_test-Returns_example :
    (r : Report ℤ) × (run_asm_test machine addresses loads 1 5 none no_calls ≡ some r)
    × AsmOutcome machine addresses loads 1 5
        (omega arith)
        (omega arith)
        (asm_array machine addresses loads 1 5 (omega arith) (omega arith) none no_calls)
        r
run_asm_test-Returns_example =
    run_asm_test-Returns machine addresses loads 1 5 (omega arith) (omega arith) machine-IsLawful
      none no_calls tt
