-- ===== src/CoherencyLatency/Main.antt =====
-- CoherencyLatency/PThreadsCoherencyLatency.c: RunTest, and the whole of main: the block that
-- posix_memalign gives, the line of it that the threads hand back and forth for each offset, the
-- tables of latencies and what is printed of them. `none` is an access out of bounds, another step
-- that C leaves undefined, or a call that does not return.
pub mod Laws
pub mod Print
mod Tests
use u_arch_test.Prelude.{
  ℕ, zero, suc, ◌+◌, ◌*◌, ◌==◌, if◌then◌else◌, Bool, List, [], ◌∷◌, Option, none, some, get_elem?,
  set, store, ◌>>=◌,
}
use u_arch_test.Prelude.Int.{ℤ, pos, negsuc}
use u_arch_test.Timing.{Floats, Timeval}
use u_arch_test.CoherencyLatency.{init, run, finished, time_threads}
use u_arch_test.CoherencyLatency.Options.{parse_loop, Parsed, exits, parsed, defaults}
use Prim.Native.String.{String}

-- What the system does in one call of TimeThreads: the results of pthread_create, the turns that
-- the threads get until they have been joined, and the readings of the clock.
pub record Events : Type 0 where
  pub t1rc : ℕ
  pub t2rc : ℕ
  pub schedule : List Bool
  pub start : Timeval
  pub end : Timeval

-- What main gets from the system: get_nprocs, the result of posix_memalign with the uint64_t words
-- of its block, what malloc leaves in each table, and the events of the call of RunTest for each
-- offset and pair of processors. The mallocs give what they are asked for, but for one whose size
-- is that of a negative number of offsets.
pub record System (Real : Type 0) : Type 0 where
  pub num_procs : ℕ
  pub memalign : ℕ
  pub block : List ℕ
  pub unset : ℕ → List Real
  pub events : (offset_idx i j : ℕ) → Events

-- The value of the shared word after both joins. A thread whose partner could not be created goes
-- on with data of a call that has returned, which is undefined.
pub joined_target : (iterations : ℕ) → Events → Option ℕ
joined_target iterations v =
    if v.t1rc == 0
    then (if v.t2rc == 0
        then (let s = run iterations v.schedule init in
            if finished iterations s then some s.target else none)
        else none)
    else (if v.t2rc == 0 then none else some 0)

module _ (fl : Floats) (e : System fl.Real) (iter : ℕ) where
  -- RunTest on `bouncy = bouncyBase + offsetIdx * 64` bytes, with the words of the block.
  pub run_test : (offset_idx i j : ℕ) → List ℕ → Option (fl.Real × List ℕ)
  run_test offset_idx i j block = do
    let bouncy = offset_idx * 8
    let v = e.events offset_idx i j
    block' ← store block bouncy 0
    target ← joined_target iter v
    some (time_threads fl iter v.t1rc v.t2rc v.start v.end, set block' bouncy target)

  -- `i == j ? 0 : RunTest(i, j, iter)`
  pub latency_entry : (offset_idx i j : ℕ) → List ℕ → Option (fl.Real × List ℕ)
  latency_entry offset_idx i j block =
      if i == j then some (fl.real (pos 0), block) else run_test offset_idx i j block

  -- The loops over `j`, `i` and `offsetIdx`, with `left` rounds to go, on a table and the block.
  pub test_columns :
      (offset_idx i left j : ℕ) → List fl.Real → List ℕ → Option (List fl.Real × List ℕ)
  test_columns offset_idx i zero j table block = some (table, block)
  test_columns offset_idx i (suc left) j table block = do
    measured ← latency_entry offset_idx i j block
    table' ← store table (j + i * e.num_procs) measured.0
    test_columns offset_idx i left (j + 1) table' measured.1

  pub test_rows : (offset_idx left i : ℕ) → List fl.Real → List ℕ → Option (List fl.Real × List ℕ)
  test_rows offset_idx zero i table block = some (table, block)
  test_rows offset_idx (suc left) i table block = do
    row ← test_columns offset_idx i e.num_procs 0 table block
    test_rows offset_idx left (i + 1) row.0 row.1

  pub test_offsets : (left offset_idx : ℕ) → List ℕ → Option (List (List fl.Real))
  test_offsets zero offset_idx block = some []
  test_offsets (suc left) offset_idx block = do
    tested ← test_rows offset_idx e.num_procs 0 (e.unset offset_idx) block
    rest ← test_offsets left (offset_idx + 1) tested.1
    some (tested.0 ∷ rest)

-- The loops that print; `none` in a line is the `x` on the diagonal.
module _ (fl : Floats) (num_procs : ℕ) where
  pub print_columns : (table : List fl.Real) (i left j : ℕ) → Option (List (Option fl.Real))
  print_columns table i zero j = some []
  print_columns table i (suc left) j = do
    shown ←
        if j == i
        then some none
        else (get_elem? table (j + i * num_procs) >>= λ latency.
            some (some (fl.narrow (fl.div latency (fl.real (pos 2))))))
    rest ← print_columns table i left (j + 1)
    some (shown ∷ rest)

  pub print_rows : (table : List fl.Real) (left i : ℕ) → Option (List (List (Option fl.Real)))
  print_rows table zero i = some []
  print_rows table (suc left) i = do
    line ← print_columns table i num_procs 0
    rest ← print_rows table left (i + 1)
    some (line ∷ rest)

  -- Each table under `Cache line offset: %d`.
  pub print_offsets :
      (tables : List (List fl.Real)) (offset_idx : ℕ)
      → Option (List (ℕ × List (List (Option fl.Real))))
  print_offsets [] offset_idx = some []
  print_offsets (table ∷ tables) offset_idx = do
    lines ← print_rows table num_procs 0
    rest ← print_offsets tables (offset_idx + 1)
    some ((offset_idx, lines) ∷ rest)

-- `main` returns a code early, or prints the tables and returns 0.
pub data Exit (Real : Type 0) : Type 0 where
  returns : (code : ℕ) → Exit Real
  prints : List (ℕ × List (List (Option Real))) → Exit Real

module _ (fl : Floats) (atoi : String → ℤ) (e : System fl.Real) where
  -- From the first malloc on. That of a negative number of offsets gives no memory, and memset
  -- writes through NULL.
  pub measured : (iter : ℕ) (offsets : ℤ) → Option (Exit fl.Real)
  measured iter (negsuc n) = none
  measured iter (pos offsets) = do
    tables ← test_offsets fl e iter offsets 0 e.block
    pages ← print_offsets fl e.num_procs tables 0
    some (prints pages)

  pub main : (arguments : List String) → Option (Exit fl.Real)
  main arguments =
      if e.memalign == 0
      then (elim (parse_loop atoi arguments defaults) [
        | exits code ↦ some (returns code)
        | parsed o ↦ measured o.iter o.offsets
      ])
      else some (returns 0)
