-- ===== src/AsmGen/Tables.antt =====
-- AsmGen/DataFiles/BranchhistTestBlock.c and IndirectBranchTestBlock.c, which fill two tables of
-- latencies each, and printResultFloatArr of AsmGen/DataFiles/CommonFunctions.c, which prints them.
pub mod Laws
pub mod Output
mod Tests
use u_arch_test.Prelude.{
  ℕ, zero, suc, ◌+◌, ◌*◌, List, [], ◌∷◌, Option, none, some, length, get_elem?, u32, u64, ◌/◌,
  block_slots, store, ◌>>=◌,
}

-- `first b t` and `second b t` are the results of the two tests with branch count b and size t:
-- random and predictable directions, or targets in turn and the middle one; `malloc k slots` is what
-- the call number k gives for this number of floats, NULL included, which is not tested.
module _ {Real : Type 0} (malloc : (k slots : ℕ) → Option (List Real)) (first second : ℕ → ℕ → Real)
    (test_size_count : ℕ) where
  -- The inner loop over the sizes, with `left` to go.
  pub sizes_row :
      (left test_size_idx branch_count_idx : ℕ)
      → List Real × List Real
      → Option (List Real × List Real)
  sizes_row zero test_size_idx branch_count_idx tables = some tables
  sizes_row (suc left) test_size_idx branch_count_idx (results, ref_results) = do
    let at = u32 (branch_count_idx * test_size_count + test_size_idx)
    results' ← store results at (first branch_count_idx test_size_idx)
    ref_results' ← store ref_results at (second branch_count_idx test_size_idx)
    sizes_row left (test_size_idx + 1) branch_count_idx (results', ref_results')

  -- The outer loop over the branch counts.
  pub branch_rows :
      (left branch_count_idx : ℕ) → List Real × List Real → Option (List Real × List Real)
  branch_rows zero branch_count_idx tables = some tables
  branch_rows (suc left) branch_count_idx tables = do
    tables' ← sizes_row test_size_count 0 branch_count_idx tables
    branch_rows left (branch_count_idx + 1) tables'

  -- `resultSize`, in floats
  unfoldable pub result_slots : (max_branch_count : ℕ) → ℕ
  result_slots max_branch_count = u64 (u64 (4 * max_branch_count) * test_size_count) / 4

  pub test_block : (max_branch_count : ℕ) → Option (List Real × List Real)
  test_block max_branch_count = branch_rows max_branch_count 0 (
    block_slots (malloc 0 (result_slots max_branch_count)),
    block_slots (malloc 1 (result_slots max_branch_count)),
  )

-- In printResultFloatArr: the values of a row, and all rows with their headers; `left` rounds to go.
module _ {Real : Type 0} (arr : List Real) (x_len : ℕ) where
  pub print_row : (left test_size_idx branch_count_idx : ℕ) → Option (List Real)
  print_row zero test_size_idx branch_count_idx = some []
  print_row (suc left) test_size_idx branch_count_idx = do
    value ← get_elem? arr (u32 (branch_count_idx * x_len + test_size_idx))
    rest ← print_row left (test_size_idx + 1) branch_count_idx
    some (value ∷ rest)

  pub print_rows : (y_counts : List ℕ) (left branch_count_idx : ℕ) → Option (List (ℕ × List Real))
  print_rows y_counts zero branch_count_idx = some []
  print_rows y_counts (suc left) branch_count_idx = do
    y ← get_elem? y_counts branch_count_idx
    row ← print_row x_len 0 branch_count_idx
    rest ← print_rows y_counts left (branch_count_idx + 1)
    some ((y, row) ∷ rest)

-- printCsvHeader after its `x`, with `left` rounds to go.
pub print_csv_header : (x_counts : List ℕ) (left test_size_idx : ℕ) → Option (List ℕ)
print_csv_header x_counts zero test_size_idx = some []
print_csv_header x_counts (suc left) test_size_idx = do
  x ← get_elem? x_counts test_size_idx
  rest ← print_csv_header x_counts left (test_size_idx + 1)
  some (x ∷ rest)

-- printResultFloatArr: the header, and the rows.
pub print_result_float_arr :
    {Real : Type 0} (arr : List Real) (x_counts : List ℕ) (x_len : ℕ) (y_counts : List ℕ)
    (y_len : ℕ)
    → Option (List ℕ × List (ℕ × List Real))
print_result_float_arr arr x_counts x_len y_counts y_len = do
  header ← print_csv_header x_counts x_len 0
  rows ← print_rows arr x_len y_counts y_len 0
  some (header, rows)

-- A whole test block: both tables are filled, and then printed one after the other.
pub block_output :
    {Real : Type 0} (malloc : (k slots : ℕ) → Option (List Real)) (first second : ℕ → ℕ → Real)
    (test_sizes branch_counts : List ℕ)
    → Option ((List ℕ × List (ℕ × List Real)) × (List ℕ × List (ℕ × List Real)))
block_output malloc first second test_sizes branch_counts = do
  let x_len = length test_sizes
  let y_len = length branch_counts
  (results, ref_results) ← test_block malloc first second x_len y_len
  shown ← print_result_float_arr results test_sizes x_len branch_counts y_len
  ref_shown ← print_result_float_arr ref_results test_sizes x_len branch_counts y_len
  some (shown, ref_shown)
