-- ===== src/MemoryBandwidth/Options.antt =====
-- The options of MemoryBandwidth/MemoryBandwidth.c, on x86: the first half of `main`.
-- `*argv == '-'` with `strncmp(argv + 1, w, n) == 0` is one test here, whether the argument starts
-- with `-` and the first n characters of w.
pub mod Laws
mod Tests
use u_arch_test.Prelude.{ℕ, if◌then◌else◌, Bool, true, false, ◌||◌, List, [], ◌∷◌}
use u_arch_test.Prelude.Int.{ℤ, pos, wrap}
use Prim.Native.String.{String}
use text.Mathlib.Text.{starts_with, ◌==◌}

-- What `bw_func` can point to.
pub data BwFunc : Type 0 where
  scalar_read asm_read asm_write asm_copy asm_cflip asm_add : BwFunc
  avx512_read avx512_write avx512_copy avx512_add sse_read sse_write : BwFunc

-- The variables of `main` and the globals that the options set.
pub record Options : Type 0 where
  pub threads : ℤ
  pub shared : Bool
  pub sleep_time : ℤ
  pub branch_interval : ℤ
  pub single_size : ℤ
  pub gb_to_transfer : ℕ
  pub autothreads : ℤ
  pub method_set : Bool
  pub bw_func : BwFunc
  pub test_instruction_bandwidth : Bool
  pub nop_bytes : ℕ
  pub test_bank_conflict : Bool

-- At the head of the loop, where `gbToTransfer` has its initial value.
unfoldable pub defaults : (gb_to_transfer : ℕ) → Options
defaults gb_to_transfer = record {
  threads = pos 1;
  shared = true;
  sleep_time = pos 0;
  branch_interval = pos 0;
  single_size = pos 0;
  gb_to_transfer = gb_to_transfer;
  autothreads = pos 0;
  method_set = false;
  bw_func = asm_read;
  test_instruction_bandwidth = false;
  nop_bytes = 8;
  test_bank_conflict = false;
}

-- The options, in the order in which the loop tests for them.
pub data Switch : Type 0 where
  help threads_value shared_flag private_flag sleep_value branchinterval_value : Switch
  sizekb_value data_value autothreads_value method_value unknown no_dash : Switch

unfoldable pub switch : String → Switch
switch arg =
    if starts_with arg "-"
    then if starts_with arg "-help" || starts_with arg "-he"
      then help
      else if starts_with arg "-threads"
      then threads_value
      else if starts_with arg "-shared"
      then shared_flag
      else if starts_with arg "-private"
      then private_flag
      else if starts_with arg "-sleep"
      then sleep_value
      else if starts_with arg "-branchinterval"
      then branchinterval_value
      else if starts_with arg "-sizekb"
      then sizekb_value
      else if starts_with arg "-data"
      then data_value
      else if starts_with arg "-autothreads"
      then autothreads_value
      else if starts_with arg "-method"
      then method_value
      else unknown
    else no_dash

-- The AVX-512 version of a kernel where that is supported.
pub with_512 : (avx512_supported : Bool) → (wide narrow : BwFunc) → Options → Options
with_512 avx512_supported wide narrow o = record o {
  bw_func = if avx512_supported then wide else narrow;
}

-- The chain of tests on the value of -method. The last one compares 17 characters with a word of 16,
-- the end of the text included, so that it is for equality.
unfoldable pub set_method : (avx512_supported : Bool) → String → Options → Options
set_method avx512_supported name o =
    if starts_with name "scalar"
    then record o { bw_func = scalar_read }
    else if starts_with name "asm"
    then record o { bw_func = asm_read }
    else if starts_with name "write"
    then with_512 avx512_supported avx512_write asm_write o
    else if starts_with name "copy"
    then with_512 avx512_supported avx512_copy asm_copy o
    else if starts_with name "cflip"
    then record o { bw_func = asm_cflip }
    else if starts_with name "add"
    then with_512 avx512_supported avx512_add asm_add o
    else if starts_with name "instr8"
    then record o { test_instruction_bandwidth = true; nop_bytes = 8 }
    else if starts_with name "instr4"
    then record o { test_instruction_bandwidth = true; nop_bytes = 4 }
    else if starts_with name "avx512"
    then record o { bw_func = avx512_read }
    else if starts_with name "sse_write"
    then record o { bw_func = sse_write }
    else if starts_with name "sse"
    then record o { bw_func = sse_read }
    else if name == "readbankconflict"
    then record o { test_bank_conflict = true }
    else o

-- `main` returns with a code, or goes on with the options.
pub data Parsed : Type 0 where
  exits : (code : ℕ) → Parsed
  parsed : Options → Parsed

module _ (atoi : String → ℤ) (avx512_supported : Bool) where
  -- The loop over the arguments after the program's name.
  unfoldable pub parse_loop : List String → Options → Parsed
  parse_loop [] o = parsed o
  parse_loop (arg ∷ []) o = elim (switch arg) [
    | help ↦ exits 0
    | shared_flag ↦ parsed (record o { shared = true })
    | private_flag ↦ parsed (record o { shared = false })
    | _ ↦ exits 1
  ]
  parse_loop (arg ∷ value ∷ rest) o = elim (switch arg) [
    | help ↦ exits 0
    | threads_value ↦ parse_loop rest (record o { threads = atoi value })
    | shared_flag ↦ parse_loop (value ∷ rest) (record o { shared = true })
    | private_flag ↦ parse_loop (value ∷ rest) (record o { shared = false })
    | sleep_value ↦ parse_loop rest (record o { sleep_time = atoi value })
    | branchinterval_value ↦ parse_loop rest (record o { branch_interval = atoi value })
    | sizekb_value ↦ parse_loop rest (record o { single_size = atoi value })
    | data_value ↦ parse_loop rest (record o { gb_to_transfer = wrap 64 (atoi value) })
    | autothreads_value ↦ parse_loop rest (record o { autothreads = atoi value })
    | method_value ↦
        parse_loop rest (set_method avx512_supported value (record o { method_set = true }))
    | unknown ↦ exits 1
    | no_dash ↦ exits 1
  ]

-- Without -method, the best kernel that the processor supports.
unfoldable pub choose_method :
    (sse_supported avx_supported avx512_supported : Bool) → Options → Options
choose_method sse_supported avx_supported avx512_supported o =
    if o.method_set
    then o
    else (let with_sse = if sse_supported then sse_read else scalar_read in
        let with_avx = if avx_supported then asm_read else with_sse in
        record o { bw_func = if avx512_supported then avx512_read else with_avx })
