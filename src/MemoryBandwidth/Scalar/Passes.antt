-- ===== src/MemoryBandwidth/Scalar/Passes.antt =====
-- Passes over whole blocks of eight elements, as an independent description of the read loop.
use u_arch_test.Prelude.{
  ℕ, zero, suc, ◌+◌, ◌*◌, ◌<◌, ◌≡◌, List, Option, some, get_elem?_of_lt, length, ◌>>=◌, arith,
}
use u_arch_test.Timing.{Floats}
use u_arch_test.MemoryBandwidth.Scalar.{Sums, absorb, read_block}

module _ (fl : Floats) (arr : List fl.Real) where
  pub read_block_total :
      (i : ℕ) (s : Sums fl)
      → i + 7 < length arr
      → (s' : Sums fl) × (read_block fl arr i s ≡ some s')
  unfolding read_block
  read_block_total i s h =
      let (x1, e1) = get_elem?_of_lt arr i (omega arith) in
      let (x2, e2) = get_elem?_of_lt arr (i + 1) (omega arith) in
      let (x3, e3) = get_elem?_of_lt arr (i + 2) (omega arith) in
      let (x4, e4) = get_elem?_of_lt arr (i + 3) (omega arith) in
      let (x5, e5) = get_elem?_of_lt arr (i + 4) (omega arith) in
      let (x6, e6) = get_elem?_of_lt arr (i + 5) (omega arith) in
      let (x7, e7) = get_elem?_of_lt arr (i + 6) (omega arith) in
      let (x8, e8) = get_elem?_of_lt arr (i + 7) (omega arith) in
      (absorb fl s x1 x2 x3 x4 x5 x6 x7 x8, simp (e1, e2, e3, e4, e5, e6, e7, e8))

  -- The blocks from block `q` on, `left` of them.
  unfoldable pub whole_blocks : (left q : ℕ) → Sums fl → Option (Sums fl)
  whole_blocks zero q s = some s
  whole_blocks (suc left) q s = read_block fl arr (q * 8) s >>= whole_blocks left (q + 1)

  -- `count` passes over `n` blocks.
  unfoldable pub passes : (n count : ℕ) → Sums fl → Option (Sums fl)
  passes n zero s = some s
  passes n (suc count) s = whole_blocks n 0 s >>= passes n count
