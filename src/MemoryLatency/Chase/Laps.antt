-- ===== src/MemoryLatency/Chase/Laps.antt =====
-- Where a pointer chase along a single cycle is after any number of loads.
use u_arch_test.Prelude.{
  ℕ, zero, suc, ◌+◌, ◌%◌, ◌≤◌, ◌<◌, ◌≡◌, ap, ◌∙◌, List, [], ◌∷◌, some, get_or, length, u32, arith,
  ◌>>=◌,
}
use u_arch_test.MemoryLatency.Chase.{chase_loop}
use u_arch_test.MemoryLatency.Pattern.Cycle.{Link, Chain}
use u_arch_test.MemoryLatency.Pattern.Fill.{IsSingleCycle}
use mathlib.Core.Path.{ap₂}
use native.Mathlib.Decide.{dec_lt}
use native.Mathlib.Nat.{add-zero}
use native.Mathlib.Numerals.{add-one}

Chain-Link :
    (a : List ℕ) (slot : ℕ → ℕ) (x : ℕ) (l : List ℕ) (y i : ℕ)
    → Chain a slot x l y
    → i < length l
    → Link a slot (get_or (x ∷ l) i 0) (get_or l i 0)
Chain-Link a slot x [] y i c h = absurd (omega arith)
Chain-Link a slot x (z ∷ l) y zero c h = c.0
Chain-Link a slot x (z ∷ l) y (suc i) c h = Chain-Link a slot z l y i c.1 (omega arith)

Chain-last :
    (a : List ℕ) (slot : ℕ → ℕ) (x : ℕ) (l : List ℕ) (y : ℕ)
    → Chain a slot x l y
    → Link a slot (get_or (x ∷ l) (length l) 0) y
Chain-last a slot x [] y c = c
Chain-last a slot x (z ∷ l) y c = Chain-last a slot z l y c.1

u32_add : (a b : ℕ) → u32 (u32 a + b) ≡ u32 (a + b)
u32_add a b = omega arith

zero_mod : (n : ℕ) → 0 % n ≡ 0
zero_mod n = grind arith

mod_small : (t n : ℕ) → t < n → t % n ≡ t
mod_small t n h = grind arith

mod-next : (t n : ℕ) → t % n + 1 < n → (t + 1) % n ≡ t % n + 1
mod-next t n h = grind arith

mod-back : (t n : ℕ) → 0 < n → n ≤ t % n + 1 → (t + 1) % n ≡ 0
mod-back t n pos h = grind arith

module _ (slot : ℕ → ℕ) (n : ℕ) (a : List ℕ) (single : IsSingleCycle slot n a) where
  -- The element that load number `t` reads, the first being load 0 from element 0.
  pub visit : ℕ → ℕ
  visit t = get_or (0 ∷ single.order) (t % n) 0

  pub visit-zero : visit 0 ≡ 0
  unfolding visit
  visit-zero = rw (zero_mod n)

  pub visit_get : (t : ℕ) → t < n → visit t ≡ get_or (0 ∷ single.order) t 0
  unfolding visit
  visit_get t h = ap (λ u. get_or (0 ∷ single.order) u 0) (mod_small t n h)

  pub visit-Link : (t : ℕ) → Link a slot (visit t) (visit (t + 1))
  unfolding visit
  visit-Link t = elim (dec_lt (t % n + 1) n) [
    | yes within ↦
        rw (mod-next t n within, add-one)
          (Chain-Link a slot 0 single.order 0 (t % n) single.linked (omega (arith, single.size)))
    | no last ↦
        rw (mod-back t n (omega (arith, single.size)) (omega arith), at_end t (omega arith))
          (Chain-last a slot 0 single.order 0 single.linked)
  ]
    where
      at_end : (t : ℕ) → n ≤ t % n + 1 → t % n ≡ length single.order
      at_end t h = omega (arith, single.size)

  -- The sum of what `left` loads from load `t` on return.
  pub gathered : (left t : ℕ) → ℕ
  gathered zero t = 0
  gathered (suc left) t = slot (visit (t + 1)) + gathered left (t + 1)

  pub chase_loop-visit :
      (left t sum : ℕ)
      → chase_loop left a (slot (visit t)) (u32 sum)
        ≡ some (slot (visit (t + left)), u32 (sum + gathered left t))
  unfolding chase_loop gathered
  chase_loop-visit zero t sum = simp add-zero
  chase_loop-visit (suc left) t sum =
      rw (visit-Link t, ◌>>=◌, u32_add)
        (chase_loop-visit left (t + 1) (sum + slot (visit (t + 1)))
          ∙ ap₂ (λ (u v : ℕ). some (slot (visit u), u32 v)) (omega arith) (omega arith))
