-- ===== src/MemoryLatency/Pattern/Identity.antt =====
-- The first loop of FillPatternArr: the elements before any swap.
use u_arch_test.Prelude.{
  ℕ, zero, suc, ◌+◌, ◌*◌, ◌^◌, ◌≤◌, ◌<◌, ◌≡◌, ◌≢◌, refl, ◌∙◌, List, Option, some, length, get_elem?,
  get_elem?-set_self, get_elem?-set_ne, set, length-set, u32, store_lem, subst, arith,
}
use u_arch_test.MemoryLatency.Pattern.{identity_loop}
use u_arch_test.MemoryLatency.Pattern.Cycle.{stride, Link, mul-lt, mul-ne}
use native.Mathlib.Decide.{ℕ_discrete}

-- Slots that hold no element are as before.
abbrev pub Kept : ℕ → ℕ → List ℕ → List ℕ → Type 0
Kept increment n a a' =
    (w : ℕ) → ((x : ℕ) → x < n → x * increment ≢ w) → get_elem? a' w ≡ get_elem? a w

module _ (increment n : ℕ) (pos : 0 < increment) (fits : n * increment ≤ 2 ^ 32) where
  pub slot_lt : (x room : ℕ) → x < n → n * increment ≤ room → x * increment < room
  slot_lt x room h k = omega (arith, mul-lt x n increment pos h)

  pub u32_slot : (x : ℕ) → x < n → u32 (x * increment) ≡ x * increment
  u32_slot x h = omega (arith, slot_lt x (2 ^ 32) h fits)

  links-set :
      (i : ℕ) (a : List ℕ)
      → i * increment < length a
      → ((x : ℕ) → x < i → Link a (stride increment) x x)
      → (x : ℕ) → x < i + 1
      → Link (set a (i * increment) (i * increment)) (stride increment) x x
  links-set i a room done x h = elim (ℕ_discrete i x) [
    | yes e ↦
        subst (λ t. Link (set a (i * increment) (i * increment)) (stride increment) t t) e
          (get_elem?-set_self a (i * increment) (i * increment) room)
    | no other ↦
        get_elem?-set_ne a (i * increment) (x * increment) (i * increment)
          (mul-ne i x increment pos other)
        ∙ done x (omega arith)
  ]

  pub record Identity (a : List ℕ) (r : Option (List ℕ)) : Type 0 where
    pub out : List ℕ
    pub returns : r ≡ some out
    pub same_length : length out ≡ length a
    pub links : (x : ℕ) → x < n → Link out (stride increment) x x
    pub kept : Kept increment n a out

  Identity-set :
      (left i : ℕ) (a : List ℕ)
      → i < n
      → n * increment ≤ length a
      → Identity
          (set a (i * increment) (i * increment))
          (identity_loop increment left (i + 1) (set a (i * increment) (i * increment)))
      → Identity a (identity_loop increment (suc left) i a)
  unfolding identity_loop
  Identity-set left i a lt room rest = record {
    out = rest.out;
    returns =
        rw
          (
            u32_slot i lt,
            store_lem a (i * increment) (i * increment) (slot_lt i (length a) lt room),
          )
          rest.returns;
    same_length = rest.same_length ∙ length-set a (i * increment) (i * increment);
    links = rest.links;
    kept = λ w h. rest.kept w h ∙ get_elem?-set_ne a (i * increment) w (i * increment) (h i lt);
  }

  pub identity_loop-Identity :
      (left i : ℕ) (a : List ℕ)
      → i + left ≡ n
      → n * increment ≤ length a
      → ((x : ℕ) → x < i → Link a (stride increment) x x)
      → Identity a (identity_loop increment left i a)
  identity_loop-Identity zero i a e room done = record {
    out = a;
    returns = unfold identity_loop in refl;
    same_length = refl;
    links = λ x h. done x (omega arith);
    kept = λ w h. refl;
  }
  identity_loop-Identity (suc left) i a e room done = Identity-set left i a (omega arith) room (
      identity_loop-Identity left (i + 1) (set a (i * increment) (i * increment)) (omega arith)
        (rw length-set room) (links-set i a (slot_lt i (length a) (omega arith) room) done))
