-- ===== src/MemoryLatency/Pattern/Shuffle.antt =====
-- The second loop of FillPatternArr, a swap of two elements: how it changes the cycles.
use u_arch_test.Prelude.{
  ℕ, suc, ◌+◌, ◌*◌, ◌≤◌, ◌<◌, ◌≡◌, ◌≢◌, ◌∙◌, List, ◌∷◌, ◌++◌, some, All, All-append, All-imp,
  length, get_elem?, length-append, count, count-append, same, sym, arith, ◌==◌, ==-refl, ==-ne,
  Bool-cases, inl, inr, subst,
}
use u_arch_test.MemoryLatency.Pattern.Cycle.{
  stride, Link, Chain, Chain-append, Chain-transfer, swapped, swapped-i, swapped-j, swapped_other,
}
use u_arch_test.MemoryLatency.Pattern.Family.{update, total, total-update}
use native.Mathlib.Decide.{ℕ_discrete}

-- Occurrences of `x`, and elements, in the cycle of `r`.
abbrev pub hits : ℕ → ℕ → List ℕ → ℕ
hits x r l = same x r + count x l

abbrev pub members : ℕ → List ℕ → ℕ
members r l = suc (length l)

-- The first `n` elements fall into `m` cycles, one through each element below `m`.
pub record Cycles (increment n m : ℕ) (a : List ℕ) : Type 0 where
  pub cycle : ℕ → List ℕ
  pub linked : (r : ℕ) → r < m → Chain a (stride increment) r (cycle r) r
  pub above : (r : ℕ) → r < m → All (λ z. (m ≤ z) × (z < n)) (cycle r)
  pub once : (x : ℕ) → x < n → total (hits x) m cycle ≡ 1
  pub size : total members m cycle ≡ n

module _ (increment n : ℕ) (pos : 0 < increment) where
  -- One swap joins the cycle of `i`, the last, into that of `j`.
  module _ (a : List ℕ) (i j vi vj : ℕ) (c : Cycles increment n (suc i) a) (lt : j < i)
      (lt_n : i < n) (at_i : get_elem? a (i * increment) ≡ some vi)
      (at_j : get_elem? a (j * increment) ≡ some vj) where
    open c use {cycle}

    abbrev a' : List ℕ
    a' = swapped a increment i j vi vj

    abbrev joined : ℕ → List ℕ
    joined = update cycle j (cycle i ++ i ∷ cycle j)

    apart : i ≢ j
    apart = omega arith

    inner : (w z : ℕ) → suc i ≤ w → Link a (stride increment) w z → Link a' (stride increment) w z
    inner w z above h =
        swapped_other a increment i j vi vj pos apart at_i at_j w (omega arith) (omega arith) ∙ h

    outside : (r : ℕ) → r < suc i → All (λ w. suc i ≤ w) (cycle r)
    outside r below = All-imp _ _ (cycle r) (λ z h. h.0) (c.above r below)

    linked_other : (r : ℕ) → r < i → r ≢ j → Chain a' (stride increment) r (cycle r) r
    linked_other r below other =
        Chain-transfer a a' (stride increment) (suc i) r r (cycle r) r
          (λ z h. swapped_other a increment i j vi vj pos apart at_i at_j r (omega arith) other ∙ h)
          inner (outside r (omega arith)) (c.linked r (omega arith))

    linked_joined : Chain a' (stride increment) j (cycle i ++ i ∷ cycle j) j
    linked_joined =
        Chain-append a' (stride increment) j (cycle i) i (cycle j) j
          (Chain-transfer a a' (stride increment) (suc i) i j (cycle i) i
            (λ z h. swapped-j a increment i j vi vj pos apart at_i at_j ∙ sym at_i ∙ h) inner
            (outside i (omega arith)) (c.linked i (omega arith)))
          (Chain-transfer a a' (stride increment) (suc i) j i (cycle j) j
            (λ z h. swapped-i a increment i j vi vj pos apart at_i at_j ∙ sym at_j ∙ h) inner
            (outside j (omega arith)) (c.linked j (omega arith)))

    relax : (r : ℕ) → r < suc i → All (λ z. (i ≤ z) × (z < n)) (cycle r)
    relax r below = All-imp _ _ (cycle r) (λ z h. (omega arith, h.1)) (c.above r below)

    pub join-Cycles : Cycles increment n i a'
    join-Cycles = record {
      cycle = joined;
      linked = λ r below. elim (ℕ_discrete j r) [
        | yes e ↦
            subst (λ t. Chain a' (stride increment) t (joined t) t) e (simp (==-refl) linked_joined)
        | no other ↦ rw (==-ne j r other) (linked_other r below (λ e. other (sym e)))
      ];
      above = λ r below. elim (Bool-cases (j == r)) [
        | inl e ↦ rw e (
            All-append _ (cycle i) (i ∷ cycle j) (relax i (omega arith))
              ((omega arith, lt_n), relax j (omega arith)))
        | inr e ↦ rw e (relax r (omega arith))
      ];
      once = λ x h. omega (
        arith,
        total-update (hits x) i cycle j (cycle i ++ i ∷ cycle j) lt,
        count-append (cycle i) (i ∷ cycle j) x,
        c.once x h,
      );
      size = omega (
        arith,
        total-update members i cycle j (cycle i ++ i ∷ cycle j) lt,
        length-append (cycle i) (i ∷ cycle j),
        c.size,
      );
    }
