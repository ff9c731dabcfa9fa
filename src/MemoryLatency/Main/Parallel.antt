-- ===== src/MemoryLatency/Main/Parallel.antt =====
-- The parallelism test of `main` in MemoryLatency/MemoryLatency.c: the table and its printing.
use u_arch_test.Prelude.{
  ℕ, zero, suc, ◌+◌, ◌*◌, ◌^◌, ◌≤◌, ◌<◌, ◌≡◌, refl, ap, ◌∙◌, lt→ltb, List, [], ◌∷◌, Option, none,
  some, All, length, length-set, get_elem?, set, store, store_lem, bind-none, mul-le-mul, arith,
  ◌>>=◌,
}
use u_arch_test.Prelude.Int.{ℤ}
use u_arch_test.MemoryLatency.Machine.{Machine, Calls, IsLawful}
use u_arch_test.MemoryLatency.Mlp.{MlpReport, rounds_of, run_mlp_test}
use u_arch_test.MemoryLatency.Mlp.Laws.{run_mlp_test-returns}
use u_arch_test.MemoryLatency.Options.{Options, parse_loop, parsed, defaults}
use u_arch_test.MemoryLatency.Plan.{default_test_sizes}
use u_arch_test.MemoryLatency.Main.{
  Platform, after_mapping, huge_pages_arr, mlp_columns, mlp_rows, mlp_print_row, mlp_print,
  mlp_mode, run_tests, main,
}
use u_arch_test.MemoryLatency.Main.Laws.{main_parsed}
use Prim.Native.String.{String}

-- Every size is above its index.
abbrev Above : ℕ → List ℕ → Type 0
Above size_idx [] = Unit
Above size_idx (size ∷ more) = (size_idx < size) × Above (size_idx + 1) more

default_test_sizes-Above : Above 0 default_test_sizes
default_test_sizes-Above = omega arith

module _ (m : Machine) (s : Platform m.floats.Real) (o : Options) where
  mlp_print_row_overrun :
      (sizes : List ℕ) (size_idx parallelism : ℕ) (results : List m.floats.Real)
      → Above size_idx sizes
      → mlp_print_row m s o sizes size_idx parallelism results ≡ none
  unfolding mlp_print_row
  mlp_print_row_overrun [] size_idx parallelism results above = refl
  mlp_print_row_overrun (size ∷ more) size_idx parallelism results above =
      rw (lt→ltb size_idx size above.0) (
        bind-none (get_elem? results (size_idx * o.mlp_test + parallelism)) (λ value.
          rw (mlp_print_row_overrun more (size_idx + 1) parallelism results above.1, ◌>>=◌) refl))

  mlp_print_overrun :
      (left parallelism : ℕ) (results : List m.floats.Real)
      → 0 < left
      → mlp_print m s o left parallelism results ≡ none
  unfolding mlp_print
  mlp_print_overrun zero parallelism results h = absurd (omega arith)
  mlp_print_overrun (suc left) parallelism results h =
      rw
        (
          mlp_print_row_overrun default_test_sizes 0 parallelism results default_test_sizes-Above,
          ◌>>=◌,
        )
        refl

  module _ (lawful : IsLawful m)
      (few : (size parallelism : ℕ) → rounds_of m size o.iterations parallelism < 2 ^ 31) where
    abbrev pub Real' : Type 0
    Real' = m.floats.Real

    -- The loops return with a table of the same size.
    abbrev pub Filled : List Real' → Option (List Real' × Calls) → Type 0
    Filled results r =
        (out : List Real') × (calls' : Calls) × (r ≡ some (out, calls'))
        × (length out ≡ length results)

    one_cell :
        (size_idx size left parallelism : ℕ) (results results' : List Real') (calls : Calls)
        (r : MlpReport Real')
        → run_mlp_test m size o.iterations (parallelism + 1) calls ≡ some r
        → store results (size_idx * o.mlp_test + parallelism) r.bandwidth ≡ some results'
        → mlp_columns m s o size_idx size (suc left) parallelism results calls
          ≡ mlp_columns m s o size_idx size left (parallelism + 1) results' r.calls
    unfolding mlp_columns
    one_cell size_idx size left parallelism results results' calls r e0 e1 =
        rw (e0, ◌>>=◌, e1, ◌>>=◌) refl

    mlp_columns-Filled :
        (size_idx size left parallelism : ℕ) (results : List Real') (calls : Calls)
        → 0 < size
        → size < 2 ^ 22
        → parallelism + left ≤ size * 16
        → size_idx * o.mlp_test + parallelism + left ≤ length results
        → Filled results (mlp_columns m s o size_idx size left parallelism results calls)
    unfolding mlp_columns
    mlp_columns-Filled size_idx size zero parallelism results calls some_kb small enough room =
        (results, calls, refl, refl)
    mlp_columns-Filled size_idx size (suc left) parallelism results calls some_kb small enough
          room =
        let at = size_idx * o.mlp_test + parallelism in
        let (r, runs) =
          run_mlp_test-returns m size o.iterations (parallelism + 1) some_kb small (omega arith)
            (few size (parallelism + 1)) lawful calls in
        let results' = set results at r.bandwidth in
        let len = length-set results at r.bandwidth in
        let (out, calls', later, size_out) =
          mlp_columns-Filled size_idx size left (parallelism + 1) results' r.calls some_kb small
            (omega arith) (omega (arith, len)) in
        (
          out,
          calls',
          one_cell size_idx size left parallelism results results' calls r runs
                (store_lem results at r.bandwidth (omega arith))
              ∙ later,
          size_out ∙ len,
        )

    one_more : (i n : ℕ) → (i + 1) * n ≡ i * n + n
    one_more i n = grind arith

    mlp_rows-Filled :
        (sizes : List ℕ) (size_idx : ℕ) (results : List Real') (calls : Calls)
        → All (λ size. (0 < size) × (size < 2 ^ 22) × (o.mlp_test ≤ size * 16)) sizes
        → (size_idx + length sizes) * o.mlp_test ≤ length results
        → Filled results (mlp_rows m s o sizes size_idx results calls)
    unfolding mlp_rows
    mlp_rows-Filled [] size_idx results calls fit room = (results, calls, refl, refl)
    mlp_rows-Filled (size ∷ more) size_idx results calls fit room =
        let n = o.mlp_test in
        let same : (size_idx + suc (length more)) * n ≡ (size_idx + 1 + length more) * n =
          ap (λ k. k * n) (omega arith) in
        let upto = mul-le-mul (size_idx + 1) (size_idx + suc (length more)) n (omega arith) in
        let (row, calls', runs, len) =
          mlp_columns-Filled size_idx size n 0 results calls fit.0.0 fit.0.1
            (omega (arith, fit.0.2)) (omega (arith, one_more size_idx n, upto)) in
        let (out, calls'', later, size_out) =
          mlp_rows-Filled more (size_idx + 1) row calls' fit.1 (omega (arith, len, same)) in
        (out, calls'', rw (runs, ◌>>=◌) later, size_out ∙ len)

    default_test_sizes_fit :
        o.mlp_test ≡ 32
        → All (λ size. (0 < size) × (size < 2 ^ 22) × (o.mlp_test ≤ size * 16)) default_test_sizes
    default_test_sizes_fit e = omega arith

    run_tests_overrun :
        (preallocated : Option (List ℕ)) (calls : Calls) (results : List Real')
        → o.mlp_test ≡ 32
        → s.results (length default_test_sizes * o.mlp_test) ≡ some results
        → Filled results (
            mlp_rows m s o default_test_sizes 0 results
              (record calls { allocated = calls.allocated + 1 }))
        → run_tests m s o preallocated calls ≡ none
    unfolding run_tests mlp_mode
    run_tests_overrun preallocated calls results mlp got (out, calls', runs, size) =
        rw
          (
            lt→ltb 0 o.mlp_test (omega arith),
            got,
            ◌>>=◌,
            runs,
            ◌>>=◌,
            mlp_print_overrun o.mlp_test 0 out (omega arith),
            ◌>>=◌,
          )
          refl

    -- main of MemoryLatency with -test mlp, where the memory for the results can be had, a block
    -- has the slots asked for, and no test makes 2 ^ 31 rounds or more: every test returns, and its
    -- result is stored within the table; but then the loop that prints the first row reads past
    -- the sizes of the tests, whatever the results.
    pub main_mlp_overrun :
        (atoi : String → ℤ) (arguments : List String) (calls : Calls)
        (preallocated : Option (List ℕ)) (results : List Real')
        → parse_loop atoi arguments defaults ≡ parsed o
        → o.mlp_test ≡ 32
        → huge_pages_arr m s o ≡ some preallocated
        → s.results (length default_test_sizes * o.mlp_test) ≡ some results
        → length results ≡ length default_test_sizes * o.mlp_test
        → Filled results (
            mlp_rows m s o default_test_sizes 0 results
              (record calls { allocated = calls.allocated + 1 }))
          × (main m s atoi arguments calls ≡ none)
    unfolding after_mapping
    main_mlp_overrun atoi arguments calls preallocated results read mlp given got size =
        let calls' : Calls = record calls { allocated = calls.allocated + 1 } in
        let filled =
          mlp_rows-Filled default_test_sizes 0 results calls' (default_test_sizes_fit mlp)
            (omega arith) in
        (
          filled,
          main_parsed m s o atoi arguments calls (some preallocated) read given
              ∙ run_tests_overrun preallocated calls results mlp got filled,
        )
