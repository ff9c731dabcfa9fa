-- ===== src/MemoryBandwidth/Scalar.antt =====
-- scalar_read of MemoryBandwidth/MemoryBandwidth.c: the portable read loop, unrolled eight times.
pub mod Passes
pub mod Laws
use u_arch_test.Prelude.{
  ℕ, zero, suc, ◌+◌, ltb, leb, ◌==◌, if◌then◌else◌, List, Option, none, some, get_elem?, u64, ◌>>=◌,
}
use u_arch_test.Prelude.Int.{pos}
use u_arch_test.Timing.{Floats}

-- `fault` is a read out of bounds; the loop has run `fuel` rounds at `out_of_fuel`.
pub data Loop {ℓ} (A : Type ℓ) : Type ℓ where
  done : A → Loop A
  fault out_of_fuel : Loop A

module _ (fl : Floats) where
  -- s1 to s8
  pub record Sums : Type 0 where
    pub s1 : fl.Real
    pub s2 : fl.Real
    pub s3 : fl.Real
    pub s4 : fl.Real
    pub s5 : fl.Real
    pub s6 : fl.Real
    pub s7 : fl.Real
    pub s8 : fl.Real

  abbrev zero_float : fl.Real
  zero_float = fl.real (pos 0)

  abbrev one_float : fl.Real
  one_float = fl.real (pos 1)

  pub initial : Sums
  initial = record {
    s1 = zero_float;
    s2 = one_float;
    s3 = zero_float;
    s4 = one_float;
    s5 = zero_float;
    s6 = one_float;
    s7 = zero_float;
    s8 = one_float;
  }

  -- `+=` and `*=` on float
  abbrev pub plus : fl.Real → fl.Real → fl.Real
  plus a b = fl.narrow (fl.add a b)

  abbrev pub times : fl.Real → fl.Real → fl.Real
  times a b = fl.narrow (fl.mul a b)

  -- The eight updates of a round.
  abbrev pub absorb : Sums → (x1 x2 x3 x4 x5 x6 x7 x8 : fl.Real) → Sums
  absorb s x1 x2 x3 x4 x5 x6 x7 x8 = record {
    s1 = plus s.s1 x1;
    s2 = times s.s2 x2;
    s3 = plus s.s3 x3;
    s4 = times s.s4 x4;
    s5 = plus s.s5 x5;
    s6 = times s.s6 x6;
    s7 = plus s.s7 x7;
    s8 = times s.s8 x8;
  }

  -- The eight reads of a round at index `i`.
  pub read_block : List fl.Real → (i : ℕ) → Sums → Option Sums
  read_block arr i s = do
    x1 ← get_elem? arr i
    x2 ← get_elem? arr (i + 1)
    x3 ← get_elem? arr (i + 2)
    x4 ← get_elem? arr (i + 3)
    x5 ← get_elem? arr (i + 4)
    x6 ← get_elem? arr (i + 5)
    x7 ← get_elem? arr (i + 6)
    x8 ← get_elem? arr (i + 7)
    some (absorb s x1 x2 x3 x4 x5 x6 x7 x8)

  -- `i += 8; if (i + 7 >= arr_length) i = 0;`
  pub next_index : (arr_length i : ℕ) → ℕ
  next_index arr_length i = if leb arr_length (u64 (u64 (i + 8) + 7)) then 0 else u64 (i + 8)

  -- `if (i == start) iter_idx++;`
  pub next_iter : (start iter_idx i : ℕ) → ℕ
  next_iter start iter_idx i = if i == start then u64 (iter_idx + 1) else iter_idx

  -- `sum += s1 + ... + s8`
  pub total_sum : Sums → fl.Real
  total_sum s =
      plus zero_float
        (plus (plus (plus (plus (plus (plus (plus s.s1 s.s2) s.s3) s.s4) s.s5) s.s6) s.s7) s.s8)

  pub finish : Loop Sums → Loop fl.Real
  finish (done s) = done (total_sum s)
  finish fault = fault
  finish out_of_fuel = out_of_fuel

  module _ (arr : List fl.Real) (arr_length iterations start : ℕ) where
    -- `while (iter_idx < iterations)`
    pub read_loop : (fuel iter_idx i : ℕ) → Sums → Loop Sums
    read_loop zero iter_idx i s = out_of_fuel
    read_loop (suc fuel) iter_idx i s =
        if ltb iter_idx iterations
        then (elim (read_block arr i s) [
          | none ↦ fault
          | some s' ↦
              let i' = next_index arr_length i in read_loop fuel (next_iter start iter_idx i') i' s'
        ])
        else done s

    pub scalar_read : (fuel : ℕ) → Loop fl.Real
    scalar_read fuel =
        if leb arr_length (u64 (start + 16))
        then done zero_float
        else finish (read_loop fuel 0 start initial)
