-- ===== src/MemoryLatency/Options.antt =====
-- The options of MemoryLatency/MemoryLatency.c, on 64-bit x86 or Arm and not MinGW: the first half
-- of `main`. `*argv == '-'` with `strncmp(argv + 1, w, n) == 0` is one test here, whether the
-- argument starts with `-` and the first n characters of w.
pub mod Laws
mod Tests
use u_arch_test.Prelude.{ℕ, if◌then◌else◌, Bool, true, false, ◌||◌, List, [], ◌∷◌}
use u_arch_test.Prelude.Int.{ℤ, wrap}
use Prim.Native.String.{String}
use text.Mathlib.Text.{starts_with}

-- What `testFunc` and `stlfFunc` can point to.
pub data TestFunc : Type 0 where
  run_test run_asm_test : TestFunc

pub data StlfFunc : Type 0 where
  stlftest matchedstlftest stlftest32 : StlfFunc

-- The variables of `main` and the globals that the options set.
pub record Options : Type 0 where
  pub max_test_size_mb : ℕ
  pub single_size : ℕ
  pub mlp_test : ℕ
  pub stlf : ℕ
  pub tlb : Bool
  pub huge_pages : Bool
  pub iterations : ℕ
  pub test_func : TestFunc
  pub stlf_func : StlfFunc

unfoldable pub defaults : Options
defaults = record {
  max_test_size_mb = 0;
  single_size = 0;
  mlp_test = 0;
  stlf = 0;
  tlb = false;
  huge_pages = false;
  iterations = 1000000;
  test_func = run_test;
  stlf_func = stlftest;
}

-- The options, in the order in which the loop tests for them.
pub data Switch : Type 0 where
  help test_value maxsizemb_value iter_value hugepages_flag sizekb_value unknown no_dash : Switch

unfoldable pub switch : String → Switch
switch arg =
    if starts_with arg "-"
    then if starts_with arg "-help" || starts_with arg "-he"
      then help
      else if starts_with arg "-test"
      then test_value
      else if starts_with arg "-maxsizemb"
      then maxsizemb_value
      else if starts_with arg "-iter"
      then iter_value
      else if starts_with arg "-hugepages"
      then hugepages_flag
      else if starts_with arg "-sizekb"
      then sizekb_value
      else unknown
    else no_dash

-- The chain of tests on the value of -test; the last ones compare 4 and 9 characters only.
unfoldable pub set_test : String → Options → Options
set_test name o =
    if starts_with name "c"
    then record o { test_func = run_test }
    else if starts_with name "tlb"
    then record o { tlb = true }
    else if starts_with name "mlp"
    then record o { mlp_test = 32 }
    else if starts_with name "asm"
    then record o { test_func = run_asm_test }
    else if starts_with name "stlf"
    then record o { stlf = 1 }
    else if starts_with name "matc"
    then record o { stlf = 1; stlf_func = matchedstlftest }
    else if starts_with name "dword_stl"
    then record o { stlf = 2; stlf_func = stlftest32 }
    else o

-- `main` returns with a code, goes on with the options, or reads through the NULL that ends argv.
pub data Parsed : Type 0 where
  exits : (code : ℕ) → Parsed
  parsed : Options → Parsed
  null_read : Parsed

module _ (atoi : String → ℤ) where
  -- The loop over the arguments after the program's name.
  unfoldable pub parse_loop : List String → Options → Parsed
  parse_loop [] o = parsed o
  parse_loop (arg ∷ []) o = elim (switch arg) [
    | help ↦ exits 0
    | hugepages_flag ↦ parsed (record o { huge_pages = true })
    | unknown ↦ exits 0
    | no_dash ↦ exits 1
    | _ ↦ null_read
  ]
  parse_loop (arg ∷ value ∷ rest) o = elim (switch arg) [
    | help ↦ exits 0
    | test_value ↦ parse_loop rest (set_test value o)
    | maxsizemb_value ↦ parse_loop rest (record o { max_test_size_mb = wrap 32 (atoi value) })
    | iter_value ↦ parse_loop rest (record o { iterations = wrap 32 (atoi value) })
    | hugepages_flag ↦ parse_loop (value ∷ rest) (record o { huge_pages = true })
    | sizekb_value ↦ parse_loop rest (record o { single_size = wrap 32 (atoi value) })
    | unknown ↦ exits 0
    | no_dash ↦ exits 1
  ]
