-- ===== src/MemoryBandwidth/Scalar/Laws.antt =====
-- scalar_read of MemoryBandwidth/MemoryBandwidth.c against its passes, and its loop from a skewed start.
use u_arch_test.Prelude.{
  ℕ, zero, suc, ◌+◌, ◌*◌, ◌/◌, ◌%◌, ◌^◌, ◌<◌, ◌≤◌, ◌≡◌, ◌≢◌, refl, ◌∙◌, List, some, length, ◌>>=◌,
  arith, lt→ltb, le→ltb, leb, u64, false, ◌⊎◌, inr,
}
use native.Mathlib.Nat.{zero-add, suc-add}
use u_arch_test.Timing.{Floats}
use u_arch_test.MemoryBandwidth.Scalar.{
  done, out_of_fuel, Sums, initial, read_block, next_index, next_iter, read_loop, finish, total_sum,
  scalar_read,
}
use u_arch_test.MemoryBandwidth.Scalar.Passes.{read_block_total, whole_blocks, passes}

module _ (fl : Floats) (arr : List fl.Real) (arr_length iterations : ℕ)
    (room : arr_length ≤ length arr) (large : 16 < arr_length) (small : arr_length < 2 ^ 63)
    (few : iterations < 2 ^ 63) where
  abbrev block_count : ℕ
  block_count = arr_length / 8

  next_index-inner : (q : ℕ) → q + 1 < block_count → next_index fl arr_length (q * 8) ≡ (q + 1) * 8
  unfolding next_index
  next_index-inner q h = ground arith

  next_index-last : (q : ℕ) → q + 1 ≡ block_count → next_index fl arr_length (q * 8) ≡ 0
  unfolding next_index
  next_index-last q h = ground arith

  read_loop-suc :
      (fuel iter_idx i : ℕ) (s s' : Sums fl)
      → iter_idx < iterations
      → read_block fl arr i s ≡ some s'
      → read_loop fl arr arr_length iterations 0 (suc fuel) iter_idx i s
        ≡ read_loop fl arr arr_length iterations 0 fuel
            (next_iter fl 0 iter_idx (next_index fl arr_length i))
            (next_index fl arr_length i)
            s'
  unfolding read_loop
  read_loop-suc fuel iter_idx i s s' more block =
      rw (lt→ltb iter_idx iterations more, block, read_loop) refl

  next_iter-inner : (iter_idx q : ℕ) → next_iter fl 0 iter_idx ((q + 1) * 8) ≡ iter_idx
  unfolding next_iter
  next_iter-inner iter_idx q = ground arith

  next_iter-last : (iter_idx : ℕ) → iter_idx < iterations → next_iter fl 0 iter_idx 0 ≡ iter_idx + 1
  unfolding next_iter
  next_iter-last iter_idx h = ground arith

  one_pass :
      (left q fuel iter_idx : ℕ) (s : Sums fl)
      → q + suc left ≡ block_count
      → iter_idx < iterations
      → (s' : Sums fl) × (whole_blocks fl arr (suc left) q s ≡ some s')
        × (read_loop fl arr arr_length iterations 0 (suc (left + fuel)) iter_idx (q * 8) s
            ≡ read_loop fl arr arr_length iterations 0 fuel (iter_idx + 1) 0 s')
  unfolding whole_blocks
  one_pass zero q fuel iter_idx s e more =
      let (s', block) = read_block_total fl arr (q * 8) s (omega arith) in
      (
        s',
        rw (block, ◌>>=◌),
        rw zero-add (
            rw (
              read_loop-suc fuel iter_idx (q * 8) s s' more block,
              next_index-last q (omega arith),
              next_iter-last iter_idx more,
            )),
      )
  one_pass (suc left) q fuel iter_idx s e more =
      let (s', block) = read_block_total fl arr (q * 8) s (omega arith) in
      let (s'', rest, runs) = one_pass left (q + 1) fuel iter_idx s' (omega arith) more in
      (
        s'',
        rw (block, ◌>>=◌) rest,
        rw suc-add (
            rw
              (
                read_loop-suc (suc (left + fuel)) iter_idx (q * 8) s s' more block,
                next_index-inner q (omega arith),
                next_iter-inner iter_idx q,
              )
              runs),
      )

  whole_pass :
      (n fuel iter_idx : ℕ) (s : Sums fl)
      → n ≡ block_count
      → iter_idx < iterations
      → (s' : Sums fl) × (whole_blocks fl arr n 0 s ≡ some s')
        × (read_loop fl arr arr_length iterations 0 (n + fuel) iter_idx 0 s
            ≡ read_loop fl arr arr_length iterations 0 fuel (iter_idx + 1) 0 s')
  whole_pass zero fuel iter_idx s e more = absurd (omega arith)
  whole_pass (suc left) fuel iter_idx s e more =
      rw suc-add (one_pass left 0 fuel iter_idx s (omega arith) more)

  -- The rounds of `count` passes, and one for the test that ends the loop.
  abbrev fuel_for : ℕ → ℕ
  fuel_for zero = 1
  fuel_for (suc count) = block_count + fuel_for count

  fuel_for_lem : (count : ℕ) → fuel_for count ≡ count * block_count + 1
  fuel_for_lem zero = omega arith
  fuel_for_lem (suc count) = omega (arith, fuel_for_lem count)

  all_passes :
      (count iter_idx : ℕ) (s : Sums fl)
      → iter_idx + count ≡ iterations
      → (s' : Sums fl) × (passes fl arr block_count count s ≡ some s')
        × (read_loop fl arr arr_length iterations 0 (fuel_for count) iter_idx 0 s ≡ done s')
  unfolding passes
  all_passes zero iter_idx s e = (s, refl, at_end iter_idx s (omega arith))
    where
      at_end :
          (iter_idx : ℕ) (s : Sums fl)
          → iter_idx ≡ iterations
          → read_loop fl arr arr_length iterations 0 1 iter_idx 0 s ≡ done s
      at_end iter_idx s h = unfold read_loop in rw (le→ltb iter_idx iterations (omega arith))
  all_passes (suc count) iter_idx s e =
      let (s', pass, runs) =
        whole_pass block_count (fuel_for count) iter_idx s refl (omega arith) in
      let (s'', rest, ends) = all_passes count (iter_idx + 1) s' (omega arith) in
      (s'', rw (pass, ◌>>=◌) rest, runs ∙ ends)

  -- scalar_read from start 0, on more than 16 elements that the array has, with counts below 2 ^ 63
  -- and a round of fuel for each block of each pass and one more: no read is out of bounds, the
  -- loop ends, and the result is the total of `iterations` passes over the arr_length / 8 blocks.
  pub scalar_read_lem :
      (sums : Sums fl) × (passes fl arr (arr_length / 8) iterations (initial fl) ≡ some sums)
      × (scalar_read fl arr arr_length iterations 0 (iterations * (arr_length / 8) + 1)
          ≡ done (total_sum fl sums))
  unfolding scalar_read finish
  scalar_read_lem =
      let (s', all, ends) = all_passes iterations 0 (initial fl) (omega arith) in
      (s', all, rw (short, ← fuel_for_lem iterations, ends) refl)
    where
      short : leb arr_length (u64 (0 + 16)) ≡ false
      short = ground arith

module _ (fl : Floats) (arr : List fl.Real) (arr_length iterations start : ℕ)
    (room : arr_length ≤ length arr) (fits : start + 16 < arr_length) (small : arr_length < 2 ^ 63)
    (skewed : start % 8 ≢ 0) (some_iterations : 0 < iterations) where
  -- The indices that a loop from a skewed start meets after its first round.
  abbrev Away : ℕ → Type 0
  Away i = (i + 7 < arr_length) × ((i % 8 ≡ 0) ⊎ (start ≤ i))

  next_index-Away :
      (i : ℕ)
      → Away i
      → Away (next_index fl arr_length i) × (next_iter fl start 0 (next_index fl arr_length i) ≡ 0)
  unfolding next_index next_iter
  next_index-Away i h = ground arith

  never_done :
      (fuel i : ℕ) (s : Sums fl)
      → Away i
      → read_loop fl arr arr_length iterations start fuel 0 i s ≡ out_of_fuel
  unfolding read_loop
  never_done zero i s h = refl
  never_done (suc fuel) i s h =
      let (s', block) = read_block_total fl arr i s (omega arith) in
      let (away, same) = next_index-Away i h in
      rw (lt→ltb 0 iterations some_iterations, block, read_loop, same)
        (never_done fuel (next_index fl arr_length i) s' away)

  -- From a start that is no multiple of 8 the loop never ends: no number of rounds is enough, if
  -- there is an iteration to do and more than start + 16 elements, which the array has.
  pub scalar_read_skewed :
      (fuel : ℕ) → scalar_read fl arr arr_length iterations start fuel ≡ out_of_fuel
  unfolding scalar_read finish
  scalar_read_skewed fuel =
      rw (short, never_done fuel start (initial fl) (omega arith, inr (omega arith)))
    where
      short : leb arr_length (u64 (start + 16)) ≡ false
      short = ground arith
