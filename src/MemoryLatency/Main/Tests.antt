-- ===== src/MemoryLatency/Main/Tests.antt =====
-- Examples of main of MemoryLatency.
use u_arch_test.Prelude.{
  ℕ, ◌/◌, true, if◌then◌else◌, zero, suc, ◌^◌, ◌<◌, ◌≡◌, ◌⊎◌, refl, List, [], ◌∷◌, Option, none,
  some, length-replicate, replicate, div-le, arith,
}
use u_arch_test.Prelude.Int.{ℤ, pos}
use mathlib.Core.Option.{none-ne-some}
use u_arch_test.MemoryLatency.Chase.{scale_iterations}
use u_arch_test.MemoryLatency.Mlp.{rounds_of}
use u_arch_test.MemoryLatency.Tests.{machine, machine-IsLawful, no_calls, scale_iterations_few}
use u_arch_test.MemoryLatency.Options.{Options, defaults, switch, set_test, parse_loop}
use u_arch_test.MemoryLatency.Plan.{default_test_sizes, max_mem_required, planned}
use u_arch_test.MemoryLatency.Main.{
  Platform, returns, latencies, huge_pages_arr, first_block, mlp_rows, main, after_mapping,
}
use u_arch_test.MemoryLatency.Main.Laws.{IsMapping, Ran}
use u_arch_test.MemoryLatency.Main.Regions.{size_calls, main_regions}
use u_arch_test.MemoryLatency.Main.Parallel.{Filled, main_mlp_overrun}
use u_arch_test.MemoryLatency.Main.Pages.{main_tlb_overrun}
use u_arch_test.MemoryLatency.Pattern.Tests.{blank}
use text.Mathlib.Text.{starts_with}
use Prim.Native.String.{String}

-- A system without huge pages, and whose blocks have the right size.
abbrev platform : Platform ℤ
platform = record {
  mmap = λ bytes. none;
  memalign = λ bytes. none;
  results = λ slots. some (replicate slots (pos 0));
  preplatencyarr = λ a n. a;
  latencytest = λ n a. 1;
  stlf_func = λ f n a. a;
  stlf_readings = λ k a. (record { sec = 0; nsec = 0 }, record { sec = 1; nsec = 0 });
  stlf_block = none;
  stlf_unset = pos 0;
}

platform-IsMapping : IsMapping platform
platform-IsMapping = record {
  mapped = λ bytes a e. absurd (none-ne-some a e);
  aligned = λ bytes a e. absurd (none-ne-some a e);
}

-- A stand-in for atoi.
abbrev fifty : String → ℤ
fifty text = pos 50

abbrev fifty_iterations : Options
fifty_iterations = record defaults { iterations = 50 }

abbrev fifty_parallel : Options
fifty_parallel = record defaults { iterations = 50; mlp_test = 32 }

-- Huge pages that cannot be had end the program.
huge_pages_run : main machine platform fifty ("-hugepages" ∷ []) no_calls ≡ some (returns 0)
unfolding main parse_loop switch defaults huge_pages_arr first_block after_mapping
huge_pages_run = refl

main_regions_example :
    ((huge_pages_arr machine platform fifty_iterations ≡ none)
      × (main machine platform fifty ("-iter" ∷ "50" ∷ []) no_calls ≡ some (returns 0)))
    ⊎ ((preallocated : Option (List ℕ)) × (lines : List (ℕ × ℤ)) × (huge_pages_arr machine platform
            fifty_iterations
          ≡ some preallocated)
        × (main machine platform fifty ("-iter" ∷ "50" ∷ []) no_calls ≡ some (latencies lines))
        × (size_calls lines ≡ planned fifty_iterations)
        × Ran machine 50 scale_iterations_few preallocated no_calls lines)
unfolding parse_loop switch defaults
main_regions_example =
    main_regions machine platform fifty_iterations machine-IsLawful scale_iterations_few refl fifty
      ("-iter" ∷ "50" ∷ []) no_calls platform-IsMapping refl refl refl refl refl (omega arith)

few_rounds : (size parallelism : ℕ) → rounds_of machine size 50 parallelism < 2 ^ 31
unfolding scale_iterations
few_rounds size zero = omega arith
few_rounds size (suc p) = omega (arith, div-le 500 (suc p))

main_mlp_overrun_example :
    Filled machine platform fifty_parallel machine-IsLawful few_rounds (replicate 1184 (pos 0)) (
      mlp_rows machine platform fifty_parallel default_test_sizes 0
        (replicate 1184 (pos 0))
        (record no_calls { allocated = 1 }))
    × (main machine platform fifty ("-test" ∷ "mlp" ∷ "-iter" ∷ "50" ∷ []) no_calls ≡ none)
unfolding parse_loop switch set_test defaults huge_pages_arr
main_mlp_overrun_example =
    main_mlp_overrun machine platform fifty_parallel machine-IsLawful few_rounds fifty
      ("-test" ∷ "mlp" ∷ "-iter" ∷ "50" ∷ []) no_calls none (replicate 1184 (pos 0)) refl refl refl
      refl (length-replicate 1184 (pos 0))

-- A system that maps what it is asked for.
abbrev mapping_platform : Platform ℤ
mapping_platform = record platform { mmap = λ bytes. some (blank (bytes / 4)) }

-- A stand-in for atoi that knows two numbers.
abbrev fifty_or_ten : String → ℤ
fifty_or_ten text = if starts_with text "50" then pos 50 else pos 10

abbrev ten_mb_of_pages : Options
ten_mb_of_pages = record defaults {
  iterations = 50;
  tlb = true;
  huge_pages = true;
  max_test_size_mb = 10;
}

abbrev tlb_arguments : List String
tlb_arguments = "-test" ∷ "tlb" ∷ "-hugepages" ∷ "-maxsizemb" ∷ "10" ∷ "-iter" ∷ "50" ∷ []

main_tlb_overrun_example : main machine mapping_platform fifty_or_ten tlb_arguments no_calls ≡ none
unfolding parse_loop switch set_test defaults huge_pages_arr first_block
main_tlb_overrun_example =
    main_tlb_overrun machine mapping_platform ten_mb_of_pages machine-IsLawful scale_iterations_few
      (λ k slots. (blank slots, refl)) fifty_or_ten tlb_arguments no_calls
      (blank (max_mem_required 10 / 4)) refl refl refl refl (omega arith) (omega arith) refl
      (length-replicate (max_mem_required 10 / 4) 0)
