-- ===== src/MemoryBandwidth/Main/Tests.antt =====
-- A run of main of MemoryBandwidth, with whole numbers for floating point numbers.
use u_arch_test.Prelude.{ℕ, ◌+◌, ◌*◌, if◌then◌else◌, true, List, [], ◌∷◌, some, replicate}
use u_arch_test.Prelude.Int.{ℤ, pos}
use u_arch_test.MemoryBandwidth.Options.{Options, scalar_read, defaults}
use u_arch_test.MemoryBandwidth.Main.{BandwidthSystem}
use Prim.Native.String.{String}
use text.Mathlib.Text.{starts_with}

-- A stand-in for atoi that knows two numbers.
abbrev two_or_zero : String → ℤ
two_or_zero text = if starts_with text "2" then pos 2 else pos 0

-- A processor whose every result tells what was measured.
abbrev avx512_processor : BandwidthSystem ℕ
avx512_processor = record {
  sse_supported = true;
  avx_supported = true;
  cpuid_ebx = 65536;
  malloc = λ slots. some (replicate slots 0);
  measured = λ kernel shared size_kb iterations threads.
      (size_kb * 1000000000 + iterations) * 1000 + threads;
  instructions = λ nop_bytes branch_interval size_kb iterations. size_kb;
}

abbrev two_threads : List String
two_threads = "-method" ∷ "scalar" ∷ "-autothreads" ∷ "2" ∷ []

abbrev two_threads_read : Options
two_threads_read = record (defaults 512) {
  method_set = true;
  bw_func = scalar_read;
  autothreads = pos 2;
}
