-- ===== src/MemoryLatency/Plan.antt =====
-- What `main` of MemoryLatency/MemoryLatency.c does with its options: the size of the memory that
-- it maps, and the tests that it runs, in order.
pub mod Laws
mod Tests
use u_arch_test.Prelude.{
  ℕ, zero, suc, ◌+◌, ◌*◌, ◌/◌, ltb, leb, ◌==◌, if◌then◌else◌, true, false, ◌&&◌, ◌||◌, List, [],
  ◌∷◌, ◌++◌, u32, u64, sub64, map,
}
use u_arch_test.MemoryLatency.Options.{Options}

abbrev pub default_test_sizes : List ℕ
default_test_sizes =
    2 ∷ 4 ∷ 8 ∷ 12 ∷ 16 ∷ 24 ∷ 32 ∷ 48 ∷ 64 ∷ 96 ∷ 128 ∷ 192 ∷ 256 ∷ 384 ∷ 512 ∷ 600 ∷ 768 ∷ 1024
    ∷ 1536 ∷ 2048 ∷ 3072 ∷ 4096 ∷ 5120 ∷ 6144 ∷ 8192 ∷ 10240 ∷ 12288 ∷ 16384 ∷ 24567 ∷ 32768 ∷ 65536
    ∷ 98304 ∷ 131072 ∷ 262144 ∷ 393216 ∷ 524288 ∷ 1048576 ∷ []

abbrev pub tlb_test_sizes : List ℕ
tlb_test_sizes =
    2 ∷ 4 ∷ 8 ∷ 12 ∷ 16 ∷ 20 ∷ 24 ∷ 28 ∷ 32 ∷ 36 ∷ 40 ∷ 44 ∷ 48 ∷ 64 ∷ 96 ∷ 128 ∷ 192 ∷ 256 ∷ 384
    ∷ 512 ∷ 640 ∷ 768 ∷ 896 ∷ 1024 ∷ 1152 ∷ 1280 ∷ 1536 ∷ 2048 ∷ 3072 ∷ 4096 ∷ 5120 ∷ 6144 ∷ 8192
    ∷ []

abbrev pub huge_page_size : ℕ
huge_page_size = 2097152

-- The bytes that are mapped with -hugepages: `maxMemRequired`.
unfoldable pub max_mem_required : (max_test_size_mb : ℕ) → ℕ
max_mem_required max_test_size_mb =
    let whole : ℕ = 1048576 * 1024 in
    let limit = u32 (max_test_size_mb * 1024 * 1024) in
    let wanted = if ltb 0 max_test_size_mb && ltb limit whole then limit else whole in
    u64 ((sub64 wanted 1 / huge_page_size + 1) * huge_page_size)

-- One call of a test.
pub data Call : Type 0 where
  mlp_call : (size_kb parallelism : ℕ) → Call
  stlf_call : (mode : ℕ) → Call
  tlb_call : (entries : ℕ) → Call
  size_call : (size_kb : ℕ) → Call

-- The loop over the sizes, which stops at the first one above the limit.
unfoldable pub sizes_loop : (max_test_size_mb : ℕ) → List ℕ → List Call
sizes_loop max_test_size_mb [] = []
sizes_loop max_test_size_mb (size ∷ more) =
    let rest = sizes_loop max_test_size_mb more in
    if (max_test_size_mb == 0) || leb size (u32 (max_test_size_mb * 1024))
    then size_call size ∷ rest
    else []

-- The inner loop of the parallelism test, with `left` rounds to go.
pub mlp_loop : (left parallelism size_kb : ℕ) → List Call
mlp_loop zero parallelism size_kb = []
mlp_loop (suc left) parallelism size_kb =
    mlp_call size_kb (parallelism + 1) ∷ mlp_loop left (parallelism + 1) size_kb

pub mlp_sizes : (mlp_test : ℕ) → List ℕ → List Call
mlp_sizes mlp_test [] = []
mlp_sizes mlp_test (size ∷ more) = mlp_loop mlp_test 0 size ++ mlp_sizes mlp_test more

unfoldable pub planned : Options → List Call
planned o =
    if ltb 0 o.mlp_test
    then mlp_sizes o.mlp_test default_test_sizes
    else if ltb 0 o.stlf
    then stlf_call o.stlf ∷ []
    else if o.tlb
    then map tlb_call tlb_test_sizes
    else if o.single_size == 0
    then sizes_loop o.max_test_size_mb default_test_sizes
    else size_call o.single_size ∷ []
