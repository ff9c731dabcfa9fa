-- ===== src/AsmGen/Tables/Output.antt =====
-- The whole output of the programs of AsmGen: the header, and the rows of both tables.
use u_arch_test.Prelude.{
  ℕ, suc, ◌+◌, ◌*◌, ◌^◌, ◌<◌, ◌≡◌, refl, ap, ◌∙◌, List, [], ◌∷◌, some, get_elem?, length, Option,
  arith, ◌>>=◌,
}
use u_arch_test.AsmGen.Tables.{print_rows, print_csv_header, print_result_float_arr, block_output}
use u_arch_test.AsmGen.Tables.Laws.{rows, Gives, test_block-print_rows}

print_csv_header_lem :
    (x_counts xs : List ℕ) (t : ℕ)
    → ((j : ℕ) → get_elem? x_counts (t + j) ≡ get_elem? xs j)
    → print_csv_header x_counts (length xs) t ≡ some xs
unfolding print_csv_header
print_csv_header_lem x_counts [] t heads = refl
print_csv_header_lem x_counts (x ∷ xs) t heads =
    let head : get_elem? x_counts t ≡ some x = ap (get_elem? x_counts) (omega arith) ∙ heads 0 in
    let rest =
      print_csv_header_lem x_counts xs (t + 1)
        (λ j. ap (get_elem? x_counts) (omega arith) ∙ heads (suc j)) in
    rw (head, ◌>>=◌, rest, ◌>>=◌) refl

-- The output for a table that has a result of its test for each branch count and size.
abbrev pub output :
    {Real : Type 0}
    → (test : ℕ → ℕ → Real) (test_sizes branch_counts : List ℕ) → List ℕ × List (ℕ × List Real)
output test test_sizes branch_counts = (test_sizes, rows test (length test_sizes) branch_counts 0)

printed_output :
    {Real : Type 0} (arr : List Real) (test : ℕ → ℕ → Real) (test_sizes branch_counts : List ℕ)
    → print_rows arr (length test_sizes) branch_counts (length branch_counts) 0
      ≡ some (rows test (length test_sizes) branch_counts 0)
    → print_result_float_arr arr test_sizes (length test_sizes) branch_counts (length branch_counts)
      ≡ some (output test test_sizes branch_counts)
unfolding print_result_float_arr
printed_output arr test test_sizes branch_counts h =
    rw
      (
        print_csv_header_lem test_sizes test_sizes 0 (λ j. ap (get_elem? test_sizes) (omega arith)),
        ◌>>=◌,
        h,
        ◌>>=◌,
      )
      refl

-- From the tests to the output of a program that AsmGen generates, where both calls of malloc
-- give the tables, which have less than 2 ^ 32 slots for less than 2 ^ 32 branch counts: no store and
-- no read is out of bounds, and each of the two tables is printed under a header with the sizes, with a row for each branch count, in order, which holds the count
-- itself and the results of its test for just this branch count and each size, in order.
pub block_output_lem :
    {Real : Type 0} (malloc : (k slots : ℕ) → Option (List Real)) (first second : ℕ → ℕ → Real)
    (test_sizes branch_counts : List ℕ)
    → Gives malloc (length branch_counts * length test_sizes)
    → length branch_counts < 2 ^ 32
    → length branch_counts * length test_sizes < 2 ^ 32
    → block_output malloc first second test_sizes branch_counts
      ≡ some (output first test_sizes branch_counts, output second test_sizes branch_counts)
unfolding block_output
block_output_lem malloc first second test_sizes branch_counts gives few small =
    let (results, ref_results, runs, shown, ref_shown) =
      test_block-print_rows malloc first second (length test_sizes) branch_counts gives few small in
    rw
      (
        runs,
        ◌>>=◌,
        printed_output results first test_sizes branch_counts shown,
        ◌>>=◌,
        printed_output ref_results second test_sizes branch_counts ref_shown,
        ◌>>=◌,
      )
      refl
