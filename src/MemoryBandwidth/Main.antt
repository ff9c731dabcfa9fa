-- ===== src/MemoryBandwidth/Main.antt =====
-- The whole of main in MemoryBandwidth/MemoryBandwidth.c on x86: the options, the kernel, the
-- measurements and the numbers that are printed.
pub mod Laws
mod Tests
use u_arch_test.Prelude.{
  ℕ, zero, suc, ◌+◌, ◌/◌, ◌%◌, ◌^◌, ◌==◌, Bool, List, [], ◌∷◌, Option, none, some, get_elem?,
  next_int, ◌>>=◌,
}
use u_arch_test.Prelude.Int.{ℤ, pos_part}
use u_arch_test.MemoryBandwidth.Options.{
  BwFunc, Options, defaults, Parsed, exits, parsed, parse_loop, choose_method,
}
use u_arch_test.MemoryBandwidth.Sweep.{
  bandwidth_test_sizes, Printed, lines, bank_conflicts, by_threads, by_size_and_threads,
  table_entry, sweep,
}
use Prim.Native.String.{String}

-- What main takes from outside: the features of the processor, what malloc gives for the results, and
-- the results of MeasureBw with a kernel and of MeasureInstructionBw.
pub record BandwidthSystem (Real : Type 0) : Type 0 where
  pub sse_supported : Bool
  pub avx_supported : Bool
  pub cpuid_ebx : ℕ
  pub malloc : (slots : ℕ) → Option (List Real)
  pub measured : BwFunc → (shared : Bool) (size_kb iterations threads : ℕ) → Real
  pub instructions : (nop_bytes : ℕ) (branch_interval : ℤ) (size_kb iterations : ℕ) → Real

-- What is printed: lines with a size each, TestBankConflicts' own output, lines with a number of
-- threads each, or rows with a size and a result for each number of threads.
pub data Output (Real : Type 0) : Type 0 where
  sized_lines : List (ℕ × Real) → Output Real
  bank_table : Output Real
  thread_lines : List (ℕ × Real) → Output Real
  size_rows : List (ℕ × List Real) → Output Real

pub data BandwidthExit (Real : Type 0) : Type 0 where
  returns : (code : ℕ) → BandwidthExit Real
  printed : Output Real → BandwidthExit Real

-- `cpuidEbx & (1UL << 16)`
abbrev pub avx512_supported : {Real : Type 0} → BandwidthSystem Real → Bool
avx512_supported s = s.cpuid_ebx / 2 ^ 16 % 2 == 1

-- `printf("%d,%f\n", i + 1, threadResults[i])`, with `left` rounds to go.
pub print_threads : {Real : Type 0} → (results : List Real) (left i : ℕ) → Option (List (ℕ × Real))
print_threads results zero i = some []
print_threads results (suc left) i = do
  value ← get_elem? results i
  rest ← print_threads results left (i + 1)
  some ((i + 1, value) ∷ rest)

module _ {Real : Type 0} (s : BandwidthSystem Real) (o : Options) where
  abbrev pub bw : ℕ → ℕ → ℕ → Real
  bw = s.measured o.bw_func o.shared

  abbrev pub instruction_rate : ℕ → ℕ → Real
  instruction_rate = s.instructions o.nop_bytes o.branch_interval

  -- The values of a row from `thread_idx` on, with `left` to go, and the rows from a size on.
  pub print_values : (results : List Real) (size_idx left thread_idx : ℕ) → Option (List Real)
  print_values results size_idx zero thread_idx = some []
  print_values results size_idx (suc left) thread_idx = do
    value ← table_entry s.malloc bw instruction_rate results size_idx thread_idx
    next_idx ← next_int thread_idx
    rest ← print_values results size_idx left next_idx
    some (value ∷ rest)

  pub print_sizes :
      (results : List Real) (autothreads size_idx : ℕ) → List ℕ → Option (List (ℕ × List Real))
  print_sizes results autothreads size_idx [] = some []
  print_sizes results autothreads size_idx (size ∷ more) = do
    row ← print_values results size_idx autothreads 1
    rest ← print_sizes results autothreads (size_idx + 1) more
    some ((size, row) ∷ rest)

  pub print : Printed Real → Option (Output Real)
  print (lines ls) = some (sized_lines ls)
  print bank_conflicts = some bank_table
  print (by_threads results) =
      print_threads results (pos_part o.autothreads) 0 >>= λ ls. some (thread_lines ls)
  print (by_size_and_threads results) =
      print_sizes results (pos_part o.autothreads) 0 bandwidth_test_sizes >>= λ rows.
      some (size_rows rows)

  -- From the choice of the kernel on.
  pub measure_all : Option (BandwidthExit Real)
  measure_all = do
    results ← sweep s.malloc bw instruction_rate o
    output ← print results
    some (printed output)

-- What follows the loop over the arguments.
pub after_options : {Real : Type 0} → BandwidthSystem Real → Parsed → Option (BandwidthExit Real)
after_options s (exits code) = some (returns code)
after_options s (parsed o) =
    measure_all s (choose_method s.sse_supported s.avx_supported (avx512_supported s) o)

-- `gb_to_transfer` is the initial value of the global.
pub main :
    {Real : Type 0}
    → BandwidthSystem Real
    → (atoi : String → ℤ) → (arguments : List String) → (gb_to_transfer : ℕ)
    → Option (BandwidthExit Real)
main s atoi arguments gb_to_transfer =
    after_options s (parse_loop atoi (avx512_supported s) arguments (defaults gb_to_transfer))
