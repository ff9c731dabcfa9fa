-- ===== src/MemoryBandwidth/Iterations.antt =====
-- GetIterationCount of MemoryBandwidth/MemoryBandwidth.c.
pub mod Laws
use u_arch_test.Prelude.{
  ℕ, ◌+◌, ◌*◌, ◌%◌, ltb, ◌==◌, if◌then◌else◌, Option, some, u64, checked_div, ◌>>=◌,
}

-- The three assignments to the global `gbToTransfer`.
unfoldable pub raise_gb : (test_size gb_to_transfer : ℕ) → ℕ
raise_gb test_size gb_to_transfer =
    let above_64 = if ltb 64 test_size then 64 else gb_to_transfer in
    let above_512 = if ltb 512 test_size then 64 else above_64 in
    if ltb 8192 test_size then 64 else above_512

-- Rounds an iteration count up to an even one, and to 8 at least.
pub round_count : ℕ → ℕ
round_count iterations =
    let even = if iterations % 2 == 0 then iterations else u64 (iterations + 1) in
    if ltb even 8 then 8 else even

-- The iteration count, and the global as the call leaves it.
unfoldable pub get_iteration_count : (test_size threads gb_to_transfer : ℕ) → Option (ℕ × ℕ)
unfolding raise_gb round_count
get_iteration_count test_size threads gb_to_transfer = do
  let gb = raise_gb test_size gb_to_transfer
  iterations ← checked_div (u64 (gb * 1024 * 1024)) test_size
  some (round_count iterations, gb)
