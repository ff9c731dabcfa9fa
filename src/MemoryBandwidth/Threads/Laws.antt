-- ===== src/MemoryBandwidth/Threads/Laws.antt =====
-- MeasureBw of MemoryBandwidth/MemoryBandwidth.c with the runs of its threads.
use u_arch_test.Prelude.{
  ℕ, zero, suc, ◌+◌, ◌*◌, ◌/◌, ◌^◌, ◌≤◌, ◌<◌, ◌≡◌, refl, ap, subst, ◌∙◌, if◌then◌else◌, Bool, true,
  false, List, [], Option, some, All, get_elem?, get_elem?-set_self, get_elem?-set_ne, length,
  length-set, set, store_lem, u64, arith, ◌>>=◌,
}
use native.Mathlib.Decide.{ℕ_discrete}
use u_arch_test.MemoryBandwidth.Measure.{
  ThreadData, Environment, measured, elements, thread_data, counted_bytes, bandwidth, measure_bw,
}
use u_arch_test.MemoryBandwidth.Measure.Laws.{HasMemory, data_from, measure_bw_ready}
use u_arch_test.MemoryBandwidth.Scalar.{Sums, done, initial, total_sum}
use u_arch_test.MemoryBandwidth.Scalar.Passes.{passes}
use u_arch_test.MemoryBandwidth.Scalar.Laws.{scalar_read_lem}
use u_arch_test.MemoryBandwidth.Threads.{
  element_value, fill_loop, filled_array, read_bandwidth_test_thread,
}

module _ (env : Environment) (size_kb iterations threads : ℕ) (shared : Bool) where
  abbrev Real : Type 0
  Real = env.floats.Real

  abbrev v : (array arr_idx : ℕ) → Real
  v array arr_idx = element_value env size_kb iterations threads shared array arr_idx

  record Filled (array left arr_idx : ℕ) (arr : List Real) (r : Option (List Real)) : Type 0 where
    out : List Real
    returns : r ≡ some out
    same_length : length out ≡ length arr
    fresh : (j : ℕ) → arr_idx ≤ j → j < arr_idx + left → get_elem? out j ≡ some (v array j)
    before : (j : ℕ) → j < arr_idx → get_elem? out j ≡ get_elem? arr j

  fill_loop-Filled :
      (array left arr_idx : ℕ) (arr : List Real)
      → arr_idx + left ≤ length arr
      → Filled array left arr_idx arr
          (fill_loop env size_kb iterations threads shared array left arr_idx arr)
  unfolding fill_loop
  fill_loop-Filled array zero arr_idx arr room = record {
    out = arr;
    returns = refl;
    same_length = refl;
    fresh = λ j low high. absurd (omega arith);
    before = λ j h. refl;
  }
  fill_loop-Filled array (suc left) arr_idx arr room =
      let x = v array arr_idx in
      let len = length-set arr arr_idx x in
      let rest =
        fill_loop-Filled array left (arr_idx + 1) (set arr arr_idx x) (omega (arith, len)) in
      record {
        out = rest.out;
        returns = rw (store_lem arr arr_idx x (omega arith), ◌>>=◌) rest.returns;
        same_length = rest.same_length ∙ len;
        fresh = λ j low high. elim (ℕ_discrete arr_idx j) [
          | yes here ↦
              subst (λ k. get_elem? rest.out k ≡ some (v array k)) here
                (rest.before arr_idx (omega arith) ∙ get_elem?-set_self arr arr_idx x (omega arith))
          | no there ↦ rest.fresh j (omega arith) (omega arith)
        ];
        before = λ j h.
            rest.before j (omega arith)
            ∙ get_elem?-set_ne arr arr_idx j x (λ same. absurd (omega arith));
      }

  -- The number of slots in each array.
  abbrev n : ℕ
  n = elements env size_kb iterations threads shared

  module _ (unset : ℕ → List Real) where
    -- A thread ends, after its iterations times the n / 8 blocks, on an array with a value that is
    -- its own in every slot, and returns the total of that many passes over the array.
    abbrev pub Reads : ThreadData → Type 0
    Reads d =
        (arr : List Real) × (sums : Sums env.floats) × (filled_array env size_kb iterations threads
            shared unset d.array
          ≡ some arr)
        × ((j : ℕ) → j < d.arr_length → get_elem? arr j ≡ some (v d.array j))
        × (passes env.floats arr (d.arr_length / 8) d.iterations (initial env.floats) ≡ some sums)
        × (read_bandwidth_test_thread env size_kb iterations threads shared unset
              (d.iterations * (d.arr_length / 8) + 1) d
            ≡ some (done (total_sum env.floats sums)))

    module _ (room : (array : ℕ) → length (unset array) ≡ n) (large : 16 < n) (small : n < 2 ^ 63)
        (few : iterations < 2 ^ 63) (few_all : iterations * threads < 2 ^ 63) where
      thread_count :
          (i : ℕ) → (thread_data env size_kb iterations threads shared i).iterations < 2 ^ 63
      unfolding thread_data
      thread_count i = count shared
        where
          count : (b : Bool) → (if b then iterations else u64 (iterations * threads)) < 2 ^ 63
          count true = few
          count false = omega arith

      thread_data-Reads : (i : ℕ) → Reads (thread_data env size_kb iterations threads shared i)
      unfolding thread_data filled_array read_bandwidth_test_thread
      thread_data-Reads i =
          let d = thread_data env size_kb iterations threads shared i in
          let filled = fill_loop-Filled d.array n 0 (unset d.array) (omega (arith, room d.array)) in
          let (sums, all, ends) =
            scalar_read_lem env.floats filled.out n d.iterations
              (omega (arith, filled.same_length, room d.array)) large small (thread_count i) in
          (
            filled.out,
            sums,
            filled.returns,
            λ j below. filled.fresh j (omega arith) (omega arith),
            all,
            rw (filled.returns, ◌>>=◌) (ap (λ r. some r) ends),
          )

      data_from-Reads :
          (left i : ℕ) → All Reads (data_from env size_kb iterations threads shared left i)
      data_from-Reads zero i = tt
      data_from-Reads (suc left) i = (thread_data-Reads i, data_from-Reads left (i + 1))

      -- MeasureBw with scalar_read, where every block can be had with the slots asked for, more than
      -- 16 and less than 2 ^ 63, there are no more threads than kilobytes in private mode, and the
      -- iterations of all threads together are less than 2 ^ 63: each of its threads ends with no read
      -- out of bounds, after its own number of passes over an array that has its own value in every
      -- slot, and returns their total.
      pub measure_bw-Reads :
          ((k : ℕ) → env.memalign k ≡ true)
          → HasMemory env
          → (shared ≡ false → threads ≤ size_kb)
          → (ds : List ThreadData) × (measure_bw env size_kb iterations threads shared
              ≡ measured ds
                  (counted_bytes env size_kb iterations threads shared)
                  (bandwidth env size_kb iterations threads shared)
                  [])
            × All Reads ds
      measure_bw-Reads ok had enough = (
        data_from env size_kb iterations threads shared threads 0,
        measure_bw_ready env size_kb iterations threads shared ok had enough,
        data_from-Reads threads 0,
      )
