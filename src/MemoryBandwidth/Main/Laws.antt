-- ===== src/MemoryBandwidth/Main/Laws.antt =====
-- What main of MemoryBandwidth/MemoryBandwidth.c prints with -autothreads.
use u_arch_test.Prelude.{ℕ, suc, ◌+◌, ◌<◌, ◌≡◌, List, Option, some, get_elem?, length}
use u_arch_test.MemoryBandwidth.Options.{Options, choose_method}
use u_arch_test.MemoryBandwidth.Sweep.{table_entry}
use u_arch_test.MemoryBandwidth.Main.{BandwidthSystem, avx512_supported, bw, instruction_rate}
use Prim.Native.String.{String}

module _ {Real : Type 0} (s : BandwidthSystem Real) (o : Options) where
  abbrev shows : (results : List Real) (size_idx thread_idx : ℕ) → Option Real
  shows results size_idx thread_idx =
      table_entry s.malloc (bw s o) (instruction_rate s o) results size_idx thread_idx

  -- A row shows a value for each number of threads from one on.
  record ShownRow (P : ℕ → Real → Type 0) (left from : ℕ) (r : Option (List Real)) : Type 0 where
    row : List Real
    returned : r ≡ some row
    values : (k : ℕ) → k < left → (v : Real) × (get_elem? row k ≡ some v) × P (from + k) v
    long : length row ≡ left

  -- A row for each size.
  record ShownRows (P : ℕ → ℕ → Real → Type 0) (autothreads size_idx : ℕ) (sizes : List ℕ)
      (r : Option (List (ℕ × List Real))) : Type 0 where
    rows : List (ℕ × List Real)
    returned : r ≡ some rows
    shown :
        (j size : ℕ)
        → get_elem? sizes j ≡ some size
        → (row : List Real) × (get_elem? rows j ≡ some (size, row))
          × (length row ≡ autothreads)
          × ((k : ℕ) → k < autothreads → (v : Real) × (get_elem? row k ≡ some v) × P size (suc k) v)
    long : length rows ≡ length sizes

abbrev with_kernel : {Real : Type 0} → BandwidthSystem Real → Options → Options
with_kernel s o = record o {
  bw_func = (choose_method s.sse_supported s.avx_supported (avx512_supported s) o).bw_func;
}
