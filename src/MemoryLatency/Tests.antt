-- ===== src/MemoryLatency/Tests.antt =====
-- Examples of MemoryLatency.
use u_arch_test.Prelude.{
  ℕ, ◌^◌, ◌<◌, ◌≡◌, refl, subst, List, Option, none, some, length, length-replicate, u32, ◌==◌,
  if◌then◌else◌, arith,
}
use mathlib.Core.Option.{some-injective}
use u_arch_test.Prelude.Int.{ℤ}
use u_arch_test.Timing.Tests.{integers}
use u_arch_test.MemoryLatency.Machine.{Machine, Calls, IsLawful}
use u_arch_test.MemoryLatency.Pattern.Tests.{draws, blank}
use u_arch_test.MemoryLatency.Chase.{scale_iterations}
use u_arch_test.MemoryLatency.Run.{Report, run_test}
use u_arch_test.MemoryLatency.Run.Laws.{Outcome, Measures, run_test-Returns}
use u_arch_test.MemoryLatency.Mlp.{rounds_of, mlp_on}
use u_arch_test.MemoryLatency.Mlp.Laws.{Chains, mlp_on-Chains}
use u_arch_test.MemoryLatency.Tlb.{run_tlb_test, make_pattern, tlb_on, page_slot}
use u_arch_test.MemoryLatency.Tlb.Laws.{run_tlb_test-Returns, run_tlb_test_null}

abbrev pub machine : Machine
machine = record {
  floats = integers;
  rand = draws;
  malloc = λ k n. some (blank n);
  clock = λ k. record { sec = k; nsec = 0 };
}

pub machine-IsLawful : IsLawful machine
machine-IsLawful = record {
  block =
      λ k n a e. subst (λ t. length t ≡ n) (some-injective (blank n) a e) (length-replicate n 0);
}

abbrev pub no_calls : Calls
no_calls = record { drawn = 0; allocated = 0; ticks = 0 }

-- Four kilobytes in a preallocated array.
abbrev four_kb : Option (List ℕ)
four_kb = some (blank 1024)

-- Ten rounds for each iteration, since the power is 1 here.
pub scale_iterations_few : (size_kb : ℕ) → u32 (scale_iterations integers size_kb 50) < 2 ^ 31
unfolding scale_iterations
scale_iterations_few size_kb = omega arith

run_test-Returns_example :
    (r : Report ℤ) × (run_test machine 4 50 four_kb no_calls ≡ some r)
    × Outcome machine 4 50
        (omega arith)
        (omega arith)
        (scale_iterations_few 4)
        four_kb
        four_kb
        no_calls
        r
run_test-Returns_example =
    run_test-Returns machine 4 50 (omega arith) (omega arith) (scale_iterations_few 4)
      machine-IsLawful four_kb no_calls (omega arith)

run_tlb_test-Returns_example :
    ((r : Report ℤ) × (run_tlb_test machine 3 50 none no_calls ≡ some r))
    × ((p : List ℕ) × (drawn : ℕ) × (make_pattern machine 3 50 (blank 3) 0 ≡ some (p, drawn))
        × ((c : Calls)
            → Measures page_slot 3
                (u32 (scale_iterations integers 12 50))
                ℤ
                (blank 3072)
                (tlb_on machine 3 50 p (blank 3072) c)))
run_tlb_test-Returns_example =
    run_tlb_test-Returns machine 3 50 (omega arith) (omega arith) (scale_iterations_few 12)
      machine-IsLawful (scale_iterations_few 4) none no_calls (blank 3) (blank 3072) refl refl

-- A machine whose second malloc fails.
abbrev short_machine : Machine
short_machine = record machine { malloc = λ k n. if k == 1 then none else some (blank n) }

run_tlb_test_null_example : run_tlb_test short_machine 3 50 none no_calls ≡ none
run_tlb_test_null_example =
    run_tlb_test_null short_machine 3 50 (omega arith) (omega arith) (scale_iterations_few 12)
      no_calls (blank 3) refl refl refl

few_rounds : rounds_of machine 4 50 2 < 2 ^ 31
unfolding scale_iterations
few_rounds = omega arith

mlp_on-Chains_example :
    Chains 64
      (rounds_of machine 4 50 2)
      2
      ℤ
      (blank 1024)
      (mlp_on machine 4 50 2 (blank 1024) no_calls)
mlp_on-Chains_example =
    mlp_on-Chains machine 4 50 2 (omega arith) (omega arith) (omega arith) few_rounds (blank 1024)
      no_calls (omega arith)
