-- ===== src/MemoryBandwidth/Banks.antt =====
-- TestBankConflicts of MemoryBandwidth/MemoryBandwidth.c: the table of results, for each size and
-- each spacing. `loads size spacing` is the result of one measurement in loads per nanosecond.
pub mod Laws
use u_arch_test.Prelude.{
  ℕ, zero, suc, ◌+◌, ◌*◌, if◌then◌else◌, Bool, true, false, List, [], ◌∷◌, Option, none, some,
  get_elem?, replicate, store, ◌>>=◌,
}

abbrev pub max_spacing : ℕ
max_spacing = 64

abbrev pub test_points : ℕ
test_points = 10

-- How the function ends. `live` counts the blocks that are not freed.
pub data Ended (Real : Type 0) : Type 0 where
  no_array : (live : ℕ) → Ended Real
  all_tested : (result_arr : List Real) (live : ℕ) → Ended Real

module _ {Real : Type 0} (unset : Real) (memalign : ℕ → Bool) (loads : ℕ → ℕ → Real) where
  -- The loop over the spacings, with `left` to go: `resultArr[spacing * testPoints + sizeIdx] = ...`
  pub spacing_loop : (size_idx left spacing : ℕ) → List Real → Option (List Real)
  spacing_loop size_idx zero spacing results = some results
  spacing_loop size_idx (suc left) spacing results = do
    results' ← store results (spacing * test_points + size_idx) (loads size_idx spacing)
    spacing_loop size_idx left (spacing + 1) results'

  -- The loop over the sizes. `resultArr` is not freed where an array cannot be had.
  pub size_loop : (left size_idx : ℕ) → List Real → Option (Ended Real)
  size_loop zero size_idx results = some (all_tested results 0)
  size_loop (suc left) size_idx results = elim (memalign size_idx) [
    | false ↦ some (no_array 1)
    | true ↦ do
      results' ← spacing_loop size_idx (max_spacing + 1) 0 results
      size_loop left (size_idx + 1) results'
  ]

  -- `resultArr`, from malloc, whose result the source does not check.
  pub test_bank_conflicts : Option (Ended Real)
  test_bank_conflicts = size_loop test_points 0 (replicate ((max_spacing + 1) * test_points) unset)

  -- What is bank_printed for a size and a spacing.
  pub bank_printed : List Real → (size_idx spacing : ℕ) → Option Real
  bank_printed results size_idx spacing = get_elem? results (spacing * test_points + size_idx)
