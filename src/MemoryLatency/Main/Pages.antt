-- ===== src/MemoryLatency/Main/Pages.antt =====
-- `main` of MemoryLatency/MemoryLatency.c with the TLB test on huge pages.
use u_arch_test.Prelude.{
  ℕ, zero, suc, get_elem?, ◌*◌, ◌/◌, ◌^◌, ◌≤◌, ◌<◌, ◌≡◌, refl, ◌∙◌, true, List, [], ◌∷◌, none, some,
  All, length, u32, arith, ◌>>=◌,
}
use u_arch_test.Prelude.Int.{ℤ}
use mathlib.Core.Option.{some-injective, none-ne-some}
use native.Mathlib.Decide.{dec_lt}
use u_arch_test.MemoryLatency.Machine.{Machine, Calls, IsLawful}
use u_arch_test.MemoryLatency.Chase.{scale_iterations}
use u_arch_test.MemoryLatency.Options.{Options, parse_loop, parsed, defaults}
use u_arch_test.MemoryLatency.Plan.{tlb_test_sizes, max_mem_required}
use u_arch_test.MemoryLatency.Tlb.{size_kb_of}
use u_arch_test.MemoryLatency.Tlb.Overrun.{run_tlb_test_overrun, run_tlb_test_kept}
use u_arch_test.MemoryLatency.Main.{
  Platform, after_mapping, huge_pages_arr, tlb_lines, run_tests, main,
}
use u_arch_test.MemoryLatency.Main.Laws.{main_parsed}
use Prim.Native.String.{String}

-- Some number of pages in a list needs more slots than there are.
abbrev Overruns : (slots : ℕ) → List ℕ → Type 0
Overruns slots sizes =
    (j : ℕ) × (entries : ℕ) × (get_elem? sizes j ≡ some entries) × (slots < entries * 1024)

later :
    (slots entries : ℕ) (more : List ℕ)
    → entries * 1024 ≤ slots
    → Overruns slots (entries ∷ more)
    → Overruns slots more
later slots entries more fits (zero, e, same, over) =
    absurd (omega (arith, some-injective entries e same))
later slots entries more fits (suc j, e, same, over) = (j, e, same, over)

tlb_test_sizes_in_range : All (λ entries. (0 < entries) × (entries < 2 ^ 20)) tlb_test_sizes
tlb_test_sizes_in_range = omega arith

-- The mapped slots are those of whole pages, fewer than 8192 with a limit of up to 30 MB.
mapped_pages :
    (max : ℕ)
    → 0 < max
    → max < 31
    → (max_mem_required max / 4 ≡ max_mem_required max / 4096 * 1024)
      × (max_mem_required max / 4 < 8192 * 1024)
unfolding max_mem_required
mapped_pages max some_limit small = (ground arith, ground arith)

module _ (m : Machine) (s : Platform m.floats.Real) (o : Options) (lawful : IsLawful m)
    (few : (size : ℕ) → u32 (scale_iterations m.floats size o.iterations) < 2 ^ 31)
    (gives : (k slots : ℕ) → (block : List ℕ) × (m.malloc k slots ≡ some block)) where
  tlb_lines_overrun :
      (pages : ℕ) (sizes : List ℕ) (a : List ℕ) (calls : Calls)
      → length a ≡ pages * 1024
      → All (λ entries. (0 < entries) × (entries < 2 ^ 20)) sizes
      → Overruns (pages * 1024) sizes
      → tlb_lines m s o sizes (some a) calls ≡ none
  unfolding tlb_lines
  tlb_lines_overrun pages [] a calls whole small (j, e, same, over) = absurd (none-ne-some e same)
  tlb_lines_overrun pages (entries ∷ more) a calls whole small over =
      let (block, got) = gives calls.allocated entries in
      elim (dec_lt (length a) (entries * 1024)) [
        | yes beyond ↦
            rw
              (
                run_tlb_test_overrun m entries o.iterations small.0.0 small.0.1 a block calls got
                    (omega arith),
                ◌>>=◌,
              )
              refl
        | no inside ↦
            let (r, b, runs, left, same) =
              run_tlb_test_kept m entries o.iterations small.0.0 small.0.1 lawful
                (few (size_kb_of entries)) (few 4) a block calls got (omega arith) in
            rw
              (
                runs,
                ◌>>=◌,
                left,
                tlb_lines_overrun pages more b r.calls (same ∙ whole) small.1
                    (later (pages * 1024) entries more (omega arith) over),
                ◌>>=◌,
              )
              refl
      ]

  -- main of MemoryLatency with -hugepages, the TLB test and a limit of 1 to 30 MB, where the huge pages
  -- can be had, in just the size asked for, malloc gives every block, and every size makes fewer than
  -- 2 ^ 31 scaled iterations: it faults, since the TLB test goes on to 8192 pages, whatever the limit.
  pub main_tlb_overrun :
      (atoi : String → ℤ) (arguments : List String) (calls : Calls) (a : List ℕ)
      → parse_loop atoi arguments defaults ≡ parsed o
      → o.mlp_test ≡ 0
      → o.stlf ≡ 0
      → o.tlb ≡ true
      → 0 < o.max_test_size_mb
      → o.max_test_size_mb < 31
      → huge_pages_arr m s o ≡ some (some a)
      → length a ≡ max_mem_required o.max_test_size_mb / 4
      → main m s atoi arguments calls ≡ none
  unfolding after_mapping run_tests
  main_tlb_overrun atoi arguments calls a read no_mlp no_stlf tlb some_limit small given room =
      let pages = mapped_pages o.max_test_size_mb some_limit small in
      let lines =
        tlb_lines_overrun (max_mem_required o.max_test_size_mb / 4096) tlb_test_sizes a calls
          (room ∙ pages.0) tlb_test_sizes_in_range
          (32, 8192, refl, omega (arith, pages.0, pages.1)) in
      main_parsed m s o atoi arguments calls (some (some a)) read given
      ∙ simp (no_mlp, no_stlf, tlb, lines)
