-- ===== src/MemoryLatency/Main/Regions.antt =====
-- `main` of MemoryLatency/MemoryLatency.c with the C test over all sizes.
use u_arch_test.Prelude.{
  ℕ, ◌*◌, ◌/◌, ◌^◌, ◌≤◌, ◌<◌, ◌≡◌, refl, sym, ap, subst, ◌∙◌, leb, ◌==◌, if◌then◌else◌, Bool, true,
  false, ◌||◌, Bool-cases, inl, inr, ◌⊎◌, List, [], ◌∷◌, Option, none, some, All, length, u32,
  arith, ◌>>=◌,
}
use u_arch_test.Prelude.Int.{ℤ}
use mathlib.Core.Option.{some-injective, none-ne-some}
use u_arch_test.MemoryLatency.Machine.{Machine, Calls, IsLawful}
use u_arch_test.MemoryLatency.Chase.{scale_iterations}
use u_arch_test.MemoryLatency.Run.{Report, run_test}
use u_arch_test.MemoryLatency.Options.{Options, TestFunc, parse_loop, parsed, defaults}
use u_arch_test.MemoryLatency.Plan.{
  default_test_sizes, max_mem_required, Call, size_call, sizes_loop, planned,
}
use u_arch_test.MemoryLatency.Plan.Laws.{bytes, planned-fits}
use u_arch_test.MemoryLatency.Main.{
  Platform, returns, latencies, first_block, after_mapping, huge_pages_arr, test_func, region_lines,
  run_tests, main,
}
use u_arch_test.MemoryLatency.Main.Laws.{IsMapping, HasBytes, Ran, one_test, main_parsed}
use Prim.Native.String.{String}

abbrev pub size_calls : {Real : Type 0} → List (ℕ × Real) → List Call
size_calls [] = []
size_calls ((size, latency) ∷ more) = size_call size ∷ size_calls more

-- What -maxsizemb leaves.
abbrev within : ℕ → ℕ → Bool
within max size = (max == 0) || leb size (u32 (max * 1024))

sizes_loop_more :
    (max size : ℕ) (more : List ℕ)
    → within max size ≡ true
    → sizes_loop max (size ∷ more) ≡ size_call size ∷ sizes_loop max more
unfolding sizes_loop
sizes_loop_more max size more h = rw h refl

sizes_loop_end :
    (max size : ℕ) (more : List ℕ) → within max size ≡ false → sizes_loop max (size ∷ more) ≡ []
unfolding sizes_loop
sizes_loop_end max size more h = rw h refl

Option-cases {ℓ} : {A : Type ℓ} (b : Option A) → (b ≡ none) ⊎ ((a : A) × (b ≡ some a))
Option-cases none = inl refl
Option-cases (some a) = inr (a, refl)

default_test_sizes_in_range : All (λ size. (0 < size) × (size < 2 ^ 22)) default_test_sizes
default_test_sizes_in_range = omega arith

module _ (m : Machine) (s : Platform m.floats.Real) (o : Options) (lawful : IsLawful m)
    (few : (size : ℕ) → u32 (scale_iterations m.floats size o.iterations) < 2 ^ 31)
    (c_test : o.test_func ≡ TestFunc.run_test) where
  test_func_c :
      (size : ℕ) (preallocated : Option (List ℕ)) (calls : Calls)
      → test_func m s o o.test_func size preallocated calls
        ≡ run_test m size o.iterations preallocated calls
  unfolding test_func
  test_func_c size preallocated calls = ap (λ f. test_func m s o f size preallocated calls) c_test

  region_lines_more :
      (size : ℕ) (more : List ℕ) (preallocated : Option (List ℕ)) (calls : Calls)
      (r : Report m.floats.Real) (rest : List (ℕ × m.floats.Real))
      → within o.max_test_size_mb size ≡ true
      → run_test m size o.iterations preallocated calls ≡ some r
      → region_lines m s o more r.preallocated r.calls ≡ some rest
      → region_lines m s o (size ∷ more) preallocated calls ≡ some ((size, r.latency) ∷ rest)
  unfolding region_lines
  region_lines_more size more preallocated calls r rest allowed runs later =
      rw (allowed, test_func_c size preallocated calls, runs, ◌>>=◌, later, ◌>>=◌) refl

  region_lines_end :
      (size : ℕ) (more : List ℕ) (preallocated : Option (List ℕ)) (calls : Calls)
      → within o.max_test_size_mb size ≡ false
      → region_lines m s o (size ∷ more) preallocated calls ≡ some []
  unfolding region_lines
  region_lines_end size more preallocated calls over = rw over refl

  abbrev max : ℕ
  max = o.max_test_size_mb

  abbrev PrintsPlan : List ℕ → Option (List ℕ) → Calls → List (ℕ × m.floats.Real) → Type 0
  PrintsPlan sizes preallocated calls lines =
      (region_lines m s o sizes preallocated calls ≡ some lines)
      × (size_calls lines ≡ sizes_loop max sizes)
      × Ran m o.iterations few preallocated calls lines

  region_lines-PrintsPlan :
      (n : ℕ) (sizes : List ℕ) (preallocated : Option (List ℕ)) (calls : Calls)
      → All (λ size. (0 < size) × (size < 2 ^ 22)) sizes
      → All (λ c. bytes c ≤ n) (sizes_loop max sizes)
      → HasBytes m o.iterations few n preallocated
      → (lines : List (ℕ × m.floats.Real)) × PrintsPlan sizes preallocated calls lines
  unfolding region_lines sizes_loop
  region_lines-PrintsPlan n [] preallocated calls small fit room = ([], (refl, refl, tt))
  region_lines-PrintsPlan n (size ∷ more) preallocated calls small fit room =
      elim (Bool-cases (within max size)) [
        | inl allowed ↦
            let fit' = subst (All (λ c. bytes c ≤ n)) (sizes_loop_more max size more allowed) fit in
            let (r, runs, outcome, room') =
              one_test m o.iterations few lawful size n small.0.0 small.0.1 preallocated calls
                fit'.0 room in
            let (rest, (later, planned_rest, ran)) =
              region_lines-PrintsPlan n more r.preallocated r.calls small.1 fit'.1 room' in
            (
              (size, r.latency) ∷ rest,
              (
                region_lines_more size more preallocated calls r rest allowed runs later,
                ap (λ cs. size_call size ∷ cs) planned_rest
                    ∙ sym (sizes_loop_more max size more allowed),
                (small.0.0, small.0.1, r, runs, refl, outcome, ran),
              ),
            )
        | inr over ↦ (
          [],
          (
            region_lines_end size more preallocated calls over,
            sym (sizes_loop_end max size more over),
            tt,
          ),
        )
      ]

  first_block_room :
      (n : ℕ) (mapped aligned preallocated : Option (List ℕ))
      → ((a : List ℕ) → mapped ≡ some a → length a ≡ n / 4)
      → ((a : List ℕ) → aligned ≡ some a → length a ≡ n / 4)
      → first_block mapped aligned ≡ some preallocated
      → HasBytes m o.iterations few n preallocated
  unfolding first_block
  first_block_room n (some a) aligned preallocated h k e =
      subst (HasBytes m o.iterations few n) (some-injective _ _ e) (h a refl)
  first_block_room n none (some a) preallocated h k e =
      subst (HasBytes m o.iterations few n) (some-injective _ _ e) (k a refl)
  first_block_room n none none preallocated h k e = absurd (none-ne-some preallocated e)

  huge_pages_arr_room :
      (preallocated : Option (List ℕ))
      → IsMapping s
      → huge_pages_arr m s o ≡ some preallocated
      → HasBytes m o.iterations few (max_mem_required max) preallocated
  unfolding huge_pages_arr
  huge_pages_arr_room preallocated mapping e = elim (Bool-cases o.huge_pages) [
    | inl asked ↦
        first_block_room (max_mem_required max) (s.mmap (max_mem_required max))
          (s.memalign (max_mem_required max)) preallocated (mapping.mapped (max_mem_required max))
          (mapping.aligned (max_mem_required max)) (sym (choice asked) ∙ e)
    | inr not_asked ↦
        subst (HasBytes m o.iterations few (max_mem_required max))
          (some-injective _ _ (sym (choice not_asked) ∙ e)) tt
  ]
    where
      choice :
          {b : Bool}
          → o.huge_pages ≡ b
          → (if o.huge_pages
              then first_block (s.mmap (max_mem_required max)) (s.memalign (max_mem_required max))
              else some none)
            ≡ (if b
                then first_block (s.mmap (max_mem_required max)) (s.memalign (max_mem_required max))
                else some none)
      choice h =
          ap
            (λ b.
              if b
              then first_block (s.mmap (max_mem_required max)) (s.memalign (max_mem_required max))
              else some none)
            h

  module _ (no_mlp : o.mlp_test ≡ 0) (no_stlf : o.stlf ≡ 0) (no_tlb : o.tlb ≡ false)
      (all_sizes : o.single_size ≡ 0) where
    run_tests_regions :
        (preallocated : Option (List ℕ)) (calls : Calls) (lines : List (ℕ × m.floats.Real))
        → region_lines m s o default_test_sizes preallocated calls ≡ some lines
        → run_tests m s o preallocated calls ≡ some (latencies lines)
    unfolding run_tests
    run_tests_regions preallocated calls lines h = simp (no_mlp, no_stlf, no_tlb, all_sizes, h)

    planned_regions : planned o ≡ sizes_loop max default_test_sizes
    unfolding planned
    planned_regions = simp (no_mlp, no_stlf, no_tlb, all_sizes)

  -- main of MemoryLatency with the C test and without -sizekb and the other kinds of tests, where a
  -- mapping and a block have the sizes asked for, the limit is below 4096 MB and every size makes
  -- fewer than 2 ^ 31 scaled iterations: if the huge pages are asked for and cannot be had, it returns
  -- 0 at once. Otherwise it runs to the end without a fault, and prints one line for each size that
  -- is planned, in order, with the latency of RunTest on just that size, on the array as the test
  -- before left it.
  pub main_regions :
      (atoi : String → ℤ) (arguments : List String) (calls : Calls)
      → IsMapping s
      → parse_loop atoi arguments defaults ≡ parsed o
      → o.mlp_test ≡ 0
      → o.stlf ≡ 0
      → o.tlb ≡ false
      → o.single_size ≡ 0
      → o.max_test_size_mb < 4096
      → ((huge_pages_arr m s o ≡ none) × (main m s atoi arguments calls ≡ some (returns 0)))
        ⊎ ((preallocated : Option (List ℕ)) × (lines : List (ℕ × m.floats.Real)) × (huge_pages_arr m
                s o
              ≡ some preallocated)
            × (main m s atoi arguments calls ≡ some (latencies lines))
            × (size_calls lines ≡ planned o)
            × Ran m o.iterations few preallocated calls lines)
  unfolding after_mapping
  main_regions atoi arguments calls mapping read no_mlp no_stlf no_tlb all_sizes limited =
      elim (Option-cases (huge_pages_arr m s o)) [
        | inl failed ↦ inl (failed, main_parsed m s o atoi arguments calls none read failed)
        | inr (preallocated, given) ↦
            let n = max_mem_required max in
            let same = planned_regions no_mlp no_stlf no_tlb all_sizes in
            let fit =
              subst (All (λ c. bytes c ≤ n)) same (planned-fits o limited all_sizes no_tlb) in
            let (lines, (runs, same_sizes, ran)) =
              region_lines-PrintsPlan n default_test_sizes preallocated calls
                default_test_sizes_in_range fit (huge_pages_arr_room preallocated mapping given) in
            inr (
              preallocated,
              lines,
              given,
              main_parsed m s o atoi arguments calls (some preallocated) read given
                  ∙ run_tests_regions no_mlp no_stlf no_tlb all_sizes preallocated calls lines runs,
              same_sizes ∙ sym same,
              ran,
            )
      ]
