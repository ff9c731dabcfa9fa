-- ===== src/MemoryLatency/Plan/Laws.antt =====
-- The tests that `main` of MemoryLatency/MemoryLatency.c runs against the memory that it maps.
use u_arch_test.Prelude.{
  ℕ, ◌+◌, ◌*◌, ◌≤◌, ◌<◌, ◌≡◌, List, [], ◌∷◌, All, false, zero, suc, ltb, Bool-cases, inl, inr,
  All-append, arith,
}
use u_arch_test.MemoryLatency.Options.{Options}
use u_arch_test.MemoryLatency.Plan.{
  default_test_sizes, max_mem_required, Call, mlp_call, stlf_call, tlb_call, size_call, sizes_loop,
  mlp_loop, mlp_sizes, planned,
}

-- The bytes that a call needs of the mapped array.
abbrev pub bytes : Call → ℕ
bytes (mlp_call size_kb parallelism) = 0
bytes (stlf_call mode) = 0
bytes (tlb_call entries) = entries * 4096
bytes (size_call size_kb) = size_kb * 1024

module _ (max : ℕ) (few : max < 4096) where
  one_fits : (size : ℕ) → size ≤ 1048576 → size ≤ max * 1024 → size * 1024 ≤ max_mem_required max
  unfolding max_mem_required
  one_fits size h small = ground arith

  all_fit : (size : ℕ) → size ≤ 1048576 → max ≡ 0 → size * 1024 ≤ max_mem_required max
  unfolding max_mem_required
  all_fit size h none = ground arith

  sizes_loop-fits :
      (sizes : List ℕ)
      → All (λ size. size ≤ 1048576) sizes
      → All (λ c. bytes c ≤ max_mem_required max) (sizes_loop max sizes)
  unfolding sizes_loop
  sizes_loop-fits [] small = tt
  sizes_loop-fits (size ∷ more) small =
      ground (arith, one_fits size small.0, all_fit size small.0, sizes_loop-fits more small.1)

  mlp_loop-fits :
      (left parallelism size : ℕ)
      → All (λ c. bytes c ≤ max_mem_required max) (mlp_loop left parallelism size)
  unfolding mlp_loop
  mlp_loop-fits zero parallelism size = tt
  mlp_loop-fits (suc left) parallelism size =
      (omega arith, mlp_loop-fits left (parallelism + 1) size)

  mlp_sizes-fits :
      (mlp_test : ℕ) (sizes : List ℕ)
      → All (λ c. bytes c ≤ max_mem_required max) (mlp_sizes mlp_test sizes)
  unfolding mlp_sizes
  mlp_sizes-fits mlp_test [] = tt
  mlp_sizes-fits mlp_test (size ∷ more) =
      All-append _ (mlp_loop mlp_test 0 size) (mlp_sizes mlp_test more)
        (mlp_loop-fits mlp_test 0 size) (mlp_sizes-fits mlp_test more)

default_test_sizes-small : All (λ size. size ≤ 1048576) default_test_sizes
default_test_sizes-small = ground arith

-- Without -sizekb and the TLB test, and with a limit below 4096 MB or none, every array that a test
-- of `main` works on fits into the memory that is mapped with -hugepages.
pub planned-fits :
    (o : Options)
    → o.max_test_size_mb < 4096
    → o.single_size ≡ 0
    → o.tlb ≡ false
    → All (λ c. bytes c ≤ max_mem_required o.max_test_size_mb) (planned o)
unfolding planned
planned-fits o few all_sizes no_tlb = elim (Bool-cases (ltb 0 o.mlp_test)) [
  | inl mlp ↦ rw mlp (mlp_sizes-fits o.max_test_size_mb few o.mlp_test default_test_sizes)
  | inr no_mlp ↦ elim (Bool-cases (ltb 0 o.stlf)) [
    | inl stlf ↦ rw (no_mlp, stlf) (omega arith, tt)
    | inr no_stlf ↦
        rw (no_mlp, no_stlf, no_tlb, all_sizes)
          (sizes_loop-fits o.max_test_size_mb few default_test_sizes default_test_sizes-small)
  ]
]
