-- ===== src/CoherencyLatency/Main/Print.antt =====
-- The output of CoherencyLatency/PThreadsCoherencyLatency.c, and the block that its tests write to.
use u_arch_test.Prelude.{
  bind-none, ℕ, zero, suc, ◌+◌, ◌-◌, ◌*◌, ◌≤◌, ◌<◌, ◌≡◌, refl, ap, ◌∙◌, ◌==◌, if◌then◌else◌, false,
  Bool-cases, inl, inr, List, [], ◌∷◌, Option, none, some, get_elem?, length, store, le→ltb, ltb,
  arith, ◌>>=◌,
}
use u_arch_test.Prelude.Int.{ℤ, pos}
use u_arch_test.Timing.{Floats}
use u_arch_test.CoherencyLatency.Handoff.{IsSmall}
use u_arch_test.CoherencyLatency.Options.{Options, parse_loop, parsed, defaults}
use u_arch_test.CoherencyLatency.Main.{
  System, run_test, latency_entry, test_columns, test_rows, test_offsets, print_columns, print_rows,
  print_offsets, prints, measured, main,
}
use u_arch_test.CoherencyLatency.Main.Laws.{
  IsReady, shown, line, lines, pages, result, test_rows-FilledRows,
}
use Prim.Native.String.{String}

one_row_overrun :
    (fl : Floats) (e : System fl.Real) (iter k left : ℕ) (table : List fl.Real) (block : List ℕ)
    → test_columns fl e iter k 0 e.num_procs 0 table block ≡ none
    → test_rows fl e iter k (suc left) 0 table block ≡ none
unfolding test_rows
one_row_overrun fl e iter k left table block h = rw (h, ◌>>=◌) refl

module _ (fl : Floats) (e : System fl.Real) (iter : ℕ) (small : IsSmall iter)
    (ready : IsReady iter e) where
  abbrev Holds : ℕ → List fl.Real → Type 0
  Holds k table =
      (i j : ℕ)
      → i < e.num_procs
      → j < e.num_procs
      → get_elem? table (j + i * e.num_procs) ≡ some (result fl e iter small ready k i j)

  shown_lem :
      (k i j : ℕ) (table : List fl.Real)
      → get_elem? table (j + i * e.num_procs) ≡ some (result fl e iter small ready k i j)
      → (if j == i
          then some none
          else (get_elem? table (j + i * e.num_procs) >>= λ latency.
              some (some (fl.narrow (fl.div latency (fl.real (pos 2)))))))
        ≡ some (shown fl e iter k i j)
  shown_lem k i j table h = elim (Bool-cases (j == i)) [
    | inl same ↦ rw same refl
    | inr other ↦
        let flipped : (i == j) ≡ false = ground arith in rw (other, h, ◌>>=◌, flipped) refl
  ]

  print_columns_lem :
      (k i left j : ℕ) (table : List fl.Real)
      → Holds k table
      → i < e.num_procs
      → j + left ≤ e.num_procs
      → print_columns fl e.num_procs table i left j ≡ some (line fl e iter k i left j)
  unfolding print_columns line
  print_columns_lem k i zero j table holds lt le = refl
  print_columns_lem k i (suc left) j table holds lt le =
      rw
        (
          shown_lem k i j table (holds i j lt (omega arith)),
          ◌>>=◌,
          print_columns_lem k i left (j + 1) table holds lt (omega arith),
          ◌>>=◌,
        )
        refl

  print_rows_lem :
      (k left i : ℕ) (table : List fl.Real)
      → Holds k table
      → i + left ≤ e.num_procs
      → print_rows fl e.num_procs table left i ≡ some (lines fl e iter k left i)
  unfolding print_rows lines
  print_rows_lem k zero i table holds le = refl
  print_rows_lem k (suc left) i table holds le =
      rw
        (
          print_columns_lem k i e.num_procs 0 table holds (omega arith) (omega arith),
          ◌>>=◌,
          print_rows_lem k left (i + 1) table holds (omega arith),
          ◌>>=◌,
        )
        refl

  record Printed (left k : ℕ) (r : Option (List (List fl.Real))) : Type 0 where
    tables : List (List fl.Real)
    returned : r ≡ some tables
    printed : print_offsets fl e.num_procs tables k ≡ some (pages fl e iter left k)

  test_offsets-Printed :
      (left k : ℕ) (block : List ℕ)
      → length block ≡ 512
      → k + left ≤ 64
      → Printed left k (test_offsets fl e iter left k block)
  unfolding test_offsets print_offsets pages
  test_offsets-Printed zero k block size le = record {
    tables = [];
    returned = refl;
    printed = refl;
  }
  test_offsets-Printed (suc left) k block size le =
      let tested =
        test_rows-FilledRows fl e iter small ready k e.num_procs 0 (e.unset k) block (omega arith)
          (omega (arith, ready.table_size k)) in
      let rest =
        test_offsets-Printed left (k + 1) tested.block' (tested.block_kept ∙ size) (omega arith) in
      let holds : Holds k tested.out =
        λ i j hi hj. tested.fresh i j (omega arith) (omega arith) hj in
      record {
        tables = tested.out ∷ rest.tables;
        returned = rw (tested.returned, ◌>>=◌, rest.returned, ◌>>=◌) refl;
        printed =
            rw
              (
                print_rows_lem k e.num_procs 0 tested.out holds (omega arith),
                ◌>>=◌,
                rest.printed,
                ◌>>=◌,
              )
              refl;
      }

  -- Past the block, the test of processors 0 and 1 writes to a word that is not there.
  entry_overrun :
      (k : ℕ) (block : List ℕ) → length block ≤ k * 8 → latency_entry fl e iter k 0 1 block ≡ none
  unfolding latency_entry run_test store
  entry_overrun k block past = rw (le→ltb (k * 8) (length block) past, ◌>>=◌) refl

  second_column_overrun :
      (k left : ℕ) (table : List fl.Real) (block : List ℕ)
      → length block ≤ k * 8
      → test_columns fl e iter k 0 (suc left) 1 table block ≡ none
  unfolding test_columns
  second_column_overrun k left table block past = rw (entry_overrun k block past, ◌>>=◌) refl

  columns_overrun :
      (k left : ℕ) (table : List fl.Real) (block : List ℕ)
      → length block ≤ k * 8
      → test_columns fl e iter k 0 (suc (suc left)) 0 table block ≡ none
  unfolding test_columns latency_entry
  columns_overrun k left table block past =
      bind-none (store table (0 + 0 * e.num_procs) (fl.real (pos 0)))
        (λ table'. second_column_overrun k left table' block past)

  rows_overrun :
      (k : ℕ) (block : List ℕ)
      → 2 ≤ e.num_procs
      → length block ≤ k * 8
      → test_rows fl e iter k e.num_procs 0 (e.unset k) block ≡ none
  rows_overrun k block many past =
      ap (λ m. test_rows fl e iter k m 0 (e.unset k) block) more ∙ first_row
    where
      more : e.num_procs ≡ suc (e.num_procs - 1)
      more = omega arith

      two : e.num_procs ≡ suc (suc (e.num_procs - 2))
      two = omega arith

      first_row : test_rows fl e iter k (suc (e.num_procs - 1)) 0 (e.unset k) block ≡ none
      first_row = one_row_overrun fl e iter k (e.num_procs - 1) (e.unset k) block (
          ap (λ m. test_columns fl e iter k 0 m 0 (e.unset k) block) two
          ∙ columns_overrun k (e.num_procs - 2) (e.unset k) block past)

  test_offsets_overrun :
      (left k : ℕ) (block : List ℕ)
      → 2 ≤ e.num_procs
      → length block ≡ 512
      → k ≤ 64
      → 64 < k + left
      → test_offsets fl e iter left k block ≡ none
  unfolding test_offsets
  test_offsets_overrun zero k block many size le lt = absurd (omega arith)
  test_offsets_overrun (suc left) k block many size le lt = elim (Bool-cases (ltb k 64)) [
    | inl below ↦
        let tested =
          test_rows-FilledRows fl e iter small ready k e.num_procs 0 (e.unset k) block
            (ground arith) (omega (arith, ready.table_size k)) in
        rw
          (
            tested.returned,
            ◌>>=◌,
            test_offsets_overrun left (k + 1) tested.block' many (tested.block_kept ∙ size)
                (ground arith) (omega arith),
            ◌>>=◌,
          )
          refl
    | inr last ↦ rw (rows_overrun k block many (ground arith), ◌>>=◌) refl
  ]

  module _ (atoi : String → ℤ) (arguments : List String) (o : Options) (offsets : ℕ)
      (read : parse_loop atoi arguments defaults ≡ parsed o) (same_iter : o.iter ≡ iter)
      (same_offsets : o.offsets ≡ pos offsets) where
    main_read : main fl atoi e arguments ≡ measured fl atoi e iter (pos offsets)
    unfolding main
    main_read = simp (ready.aligned, read, same_iter, same_offsets)

    -- main of CoherencyLatency where a thread pair makes less than 2 ^ 62 iterations, the mallocs
    -- and posix_memalign succeed, the threads can be created, and in each test both get a turn in
    -- each of 2 * iterations rounds. A command line that asks for at most 64 offsets is run to
    -- the end with no access out of bounds, and what is printed is a page for each offset, in
    -- order, with a line for each processor and in it, for each other processor, half of the
    -- latency that the clock gave in the test of just this pair at this offset, and an x on the
    -- diagonal.
    pub main-prints :
        offsets ≤ 64 → main fl atoi e arguments ≡ some (prints (pages fl e iter offsets 0))
    unfolding measured
    main-prints le =
        let run = test_offsets-Printed offsets 0 e.block ready.block_size (omega arith) in
        main_read ∙ rw (run.returned, ◌>>=◌, run.printed, ◌>>=◌) refl

    -- On the same conditions but for more than 64 offsets, on a machine with at least two
    -- processors, main of CoherencyLatency writes out of the block that posix_memalign gave.
    pub main_overrun : 64 < offsets → 2 ≤ e.num_procs → main fl atoi e arguments ≡ none
    unfolding measured
    main_overrun lt many =
        let past =
          test_offsets_overrun offsets 0 e.block many ready.block_size (omega arith)
            (omega arith) in
        main_read ∙ rw (past, ◌>>=◌) refl
