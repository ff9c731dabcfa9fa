-- ===== src/MemoryLatency/Pattern.antt =====
-- FillPatternArr and FillPatternArr64 of MemoryLatency/MemoryLatency.c: the random access pattern
-- of the pointer chase, one element per `increment` array slots.
pub mod Cycle
pub mod Family
pub mod Shuffle
pub mod Identity
pub mod Rounds
pub mod Fill
pub mod Bias
pub mod Tests
use u_arch_test.Prelude.{
  ℕ, zero, suc, ◌+◌, ◌-◌, ◌*◌, ◌/◌, ◌%◌, ◌^◌, ltb, ◌==◌, if◌then◌else◌, List, Option, none, some,
  get_elem?, u32, store, checked_div, ◌>>=◌,
}

-- `for (i = 0; ...) pattern_arr[i * increment] = i * increment`, with `left` rounds to go.
pub identity_loop : (increment left i : ℕ) → List ℕ → Option (List ℕ)
identity_loop increment zero i a = some a
identity_loop increment (suc left) i a = do
  a' ← store a (u32 (i * increment)) (u32 (i * increment))
  identity_loop increment left (i + 1) a'

-- `rand k` is the result of the k-th call of rand(), and `drawn` counts the calls.
module _ (rand : ℕ → ℕ) where
  -- The partner of element `iter`: `iter - 1 == 0 ? 0 : rand() % (iter - 1)`.
  pub pick : (iter drawn : ℕ) → ℕ × ℕ
  pick iter drawn = if iter - 1 == 0 then (0, drawn) else (rand drawn % (iter - 1), drawn + 1)

  -- `while (iter > 1)`
  pub shuffle_loop : (increment iter : ℕ) → List ℕ → (drawn : ℕ) → Option (List ℕ × ℕ)
  shuffle_loop increment zero a drawn = some (a, drawn)
  shuffle_loop increment (suc zero) a drawn = some (a, drawn)
  shuffle_loop increment (suc (suc k)) a drawn = do
    let iter = suc k
    let j = (pick iter drawn).0
    tmp ← get_elem? a (u32 (iter * increment))
    other ← get_elem? a (u32 (j * increment))
    a' ← store a (u32 (iter * increment)) other
    a'' ← store a' (u32 (j * increment)) tmp
    shuffle_loop increment (suc k) a'' (pick iter drawn).1

  -- Both loops. Their counters are `int`s: a count from 2 ^ 31 on overflows the first one.
  pub fill : (increment element_count : ℕ) → List ℕ → (drawn : ℕ) → Option (List ℕ × ℕ)
  fill increment element_count a drawn =
      if ltb element_count (2 ^ 31)
      then (do
        a' ← identity_loop increment element_count 0 a
        shuffle_loop increment element_count a' drawn)
      else none

  pub fill_pattern_arr : List ℕ → (list_size byte_increment drawn : ℕ) → Option (List ℕ × ℕ)
  fill_pattern_arr a list_size byte_increment drawn = do
    let increment = byte_increment / 4
    element_count ← checked_div list_size increment
    fill increment element_count a drawn

  pub fill_pattern_arr64 : List ℕ → (list_size byte_increment drawn : ℕ) → Option (List ℕ × ℕ)
  fill_pattern_arr64 a list_size byte_increment drawn = do
    let increment = u32 (byte_increment / 8)
    element_count ← checked_div list_size increment
    fill increment (u32 element_count) a drawn
