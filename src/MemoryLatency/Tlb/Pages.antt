-- ===== src/MemoryLatency/Tlb/Pages.antt =====
-- RunTlbTest of MemoryLatency/MemoryLatency.c: the pattern translated to pages.
use u_arch_test.Prelude.{
  ℕ, zero, suc, ◌+◌, ◌*◌, ◌^◌, ◌≤◌, ◌<◌, ◌≡◌, ◌≢◌, refl, sym, subst, ap, ◌∙◌, List, [], ◌∷◌, Option,
  some, All, length, get_elem?, get_elem?_of_lt, get_elem?-set_self, get_elem?-set_ne, set,
  length-set, u32, u32_small, arith, ◌>>=◌, store_lem,
}
use u_arch_test.MemoryLatency.Pattern.Cycle.{stride, Link, Chain}
use u_arch_test.MemoryLatency.Pattern.Fill.{IsSingleCycle}
use u_arch_test.MemoryLatency.Tlb.{page_slot, memset_loop, translate_loop}
use mathlib.Core.Option.{some-injective}
use native.Mathlib.Nat.{mul-one}
use native.Mathlib.Decide.{ℕ_discrete}

page_slot_lt : (i n : ℕ) → i < n → page_slot i < n * 1024
page_slot_lt i n h = omega arith

page_slot-ne : (i j : ℕ) → i ≢ j → page_slot i ≢ page_slot j
page_slot-ne i j h e = h (omega arith)

as_entry : (p : List ℕ) (x y : ℕ) → get_elem? p (x * 1) ≡ some (y * 1) → get_elem? p x ≡ some y
as_entry p x y e = simp mul-one at e

-- A loop that fills an array in place: it returns an array of the same length.
pub record Wrote (a : List ℕ) (r : Option (List ℕ)) : Type 0 where
  pub out : List ℕ
  pub returns : r ≡ some out
  pub same_length : length out ≡ length a

Wrote-set :
    (left i : ℕ) (a : List ℕ)
    → i < length a
    → Wrote (set a i 0xffff_ffff) (memset_loop left (i + 1) (set a i 0xffff_ffff))
    → Wrote a (memset_loop (suc left) i a)
unfolding memset_loop
Wrote-set left i a h rest = record {
  out = rest.out;
  returns = rw (store_lem a i 0xffff_ffff h, ◌>>=◌) rest.returns;
  same_length = rest.same_length ∙ length-set a i 0xffff_ffff;
}

pub memset_loop-Wrote :
    (left i : ℕ) (a : List ℕ) → i + left ≤ length a → Wrote a (memset_loop left i a)
memset_loop-Wrote zero i a h = record {
  out = a;
  returns = unfold memset_loop in refl;
  same_length = refl;
}
memset_loop-Wrote (suc left) i a h =
    Wrote-set left i a (omega arith)
      (memset_loop-Wrote left (i + 1) (set a i 0xffff_ffff) (rw length-set (omega arith)))

module _ (n : ℕ) (p : List ℕ) (few : n ≤ 2 ^ 20) (whole : n ≤ length p) where
  -- Page `x` points to the page of the pattern's entry `x`.
  abbrev pub Mapped : List ℕ → ℕ → Type 0
  Mapped a x = (y : ℕ) → y < n → get_elem? p x ≡ some y → Link a page_slot x y

  pub record Translated (a : List ℕ) (r : Option (List ℕ)) : Type 0 where
    pub out : List ℕ
    pub returns : r ≡ some out
    pub same_length : length out ≡ length a
    pub mapped : (x : ℕ) → x < n → Mapped out x

  module _ (i : ℕ) (a : List ℕ) (lt : i < n) (room : n * 1024 ≤ length a) (target : ℕ)
      (at_i : get_elem? p i ≡ some target) where
    abbrev next : List ℕ
    next = set a (page_slot i) (u32 (page_slot target))

    in_range : page_slot i < length a
    in_range = omega (arith, page_slot_lt i n lt)

    Mapped-next : ((x : ℕ) → x < i → Mapped a x) → (x : ℕ) → x < i + 1 → Mapped next x
    Mapped-next done x h y below e = elim (ℕ_discrete i x) [
      | yes same ↦
          subst (λ t. get_elem? p t ≡ some y → Link next page_slot t y) same
            (λ e'.
              get_elem?-set_self a (page_slot i) (u32 (page_slot target)) in_range
              ∙ ap some (
                  u32_small (page_slot target) (omega (arith, fits e'))
                  ∙ ap page_slot (some-injective target y (sym at_i ∙ e'))))
            e
      | no other ↦
          get_elem?-set_ne a (page_slot i) (page_slot x) (u32 (page_slot target))
            (page_slot-ne i x other)
          ∙ done x (omega arith) y below e
    ]
      where
        fits : get_elem? p i ≡ some y → target < n
        fits e' = subst (λ t. t < n) (some-injective y target (sym e' ∙ at_i)) below

    Translated-set :
        (left : ℕ)
        → Translated next (translate_loop p left (i + 1) next)
        → Translated a (translate_loop p (suc left) i a)
    unfolding translate_loop
    Translated-set left rest = record {
      out = rest.out;
      returns =
          rw (at_i, ◌>>=◌, store_lem a (page_slot i) (u32 (page_slot target)) in_range)
            rest.returns;
      same_length = rest.same_length ∙ length-set a (page_slot i) (u32 (page_slot target));
      mapped = rest.mapped;
    }

  pub translate_loop-Translated :
      (left i : ℕ) (a : List ℕ)
      → i + left ≡ n
      → n * 1024 ≤ length a
      → ((x : ℕ) → x < i → Mapped a x)
      → Translated a (translate_loop p left i a)
  translate_loop-Translated zero i a e room done = record {
    out = a;
    returns = unfold translate_loop in refl;
    same_length = refl;
    mapped = λ x h. done x (omega arith);
  }
  translate_loop-Translated (suc left) i a e room done =
      let lt : i < n = omega arith in
      let (target, at_i) = get_elem?_of_lt p i (omega arith) in
      Translated-set i a lt room target at_i left (
        translate_loop-Translated left (i + 1) (next i a lt room target at_i) (omega arith)
          (rw length-set room) (Mapped-next i a lt room target at_i done))

  -- A chain of the pattern is one of the translated array.
  Chain-Mapped :
      (a : List ℕ)
      → ((x : ℕ) → x < n → Mapped a x)
      → (x : ℕ) (l : List ℕ) (y : ℕ) → x < n
      → y < n
      → All (λ z. (1 ≤ z) × (z < n)) l
      → Chain p (stride 1) x l y
      → Chain a page_slot x l y
  Chain-Mapped a mapped x [] y hx hy inner c = mapped x hx y hy (as_entry p x y c)
  Chain-Mapped a mapped x (z ∷ l) y hx hy inner c = (
    mapped x hx z inner.0.1 (as_entry p x z c.0),
    Chain-Mapped a mapped z l y inner.0.1 hy inner.1 c.1,
  )

  pub IsSingleCycle-Mapped :
      (a : List ℕ)
      → ((x : ℕ) → x < n → Mapped a x)
      → IsSingleCycle (stride 1) n p
      → IsSingleCycle page_slot n a
  IsSingleCycle-Mapped a mapped c = record {
    order = c.order;
    linked =
        Chain-Mapped a mapped 0 c.order 0 (omega (arith, c.size)) (omega (arith, c.size)) c.within
          c.linked;
    within = c.within;
    once = c.once;
    size = c.size;
  }
