-- ===== src/MemoryLatency/Pattern/Cycle.antt =====
-- Cycles of the access pattern, as lists of elements.
use u_arch_test.Prelude.{
  ℕ, ◌*◌, ◌≤◌, ◌<◌, ◌≡◌, ◌≢◌, ◌∙◌, List, [], ◌∷◌, ◌++◌, some, All, get_elem?, set,
  get_elem?-set_self, get_elem?-set_ne, lt_of_get_elem?, length-set, sym, arith,
}
use native.Mathlib.Decide.{dec_lt}

-- The array slot of each element: element `x` stands `x * increment` slots from the start.
abbrev pub stride : ℕ → ℕ → ℕ
stride increment x = x * increment

-- Element `x` of the array points to element `y`.
abbrev pub Link : List ℕ → (ℕ → ℕ) → ℕ → ℕ → Type 0
Link a slot x y = get_elem? a (slot x) ≡ some (slot y)

-- From `x` through the elements of the list, in order, to `y`.
abbrev pub Chain : List ℕ → (ℕ → ℕ) → ℕ → List ℕ → ℕ → Type 0
Chain a slot x [] y = Link a slot x y
Chain a slot x (z ∷ l) y = Link a slot x z × Chain a slot z l y

pub Chain-append :
    (a : List ℕ) (slot : ℕ → ℕ) (x : ℕ) (l : List ℕ) (z : ℕ) (r : List ℕ) (y : ℕ)
    → Chain a slot x l z
    → Chain a slot z r y
    → Chain a slot x (l ++ z ∷ r) y
Chain-append a slot x [] z r y h k = (h, k)
Chain-append a slot x (w ∷ l) z r y h k = (h.0, Chain-append a slot w l z r y h.1 k)

-- Another array that agrees on the inner elements has the chain from any `x'` with the link of `x`.
pub Chain-transfer :
    (a a' : List ℕ) (slot : ℕ → ℕ) (bound x x' : ℕ) (l : List ℕ) (y : ℕ)
    → ((z : ℕ) → Link a slot x z → Link a' slot x' z)
    → ((w z : ℕ) → bound ≤ w → Link a slot w z → Link a' slot w z)
    → All (λ w. bound ≤ w) l
    → Chain a slot x l y
    → Chain a' slot x' l y
Chain-transfer a a' slot bound x x' [] y first rest above h = first y h
Chain-transfer a a' slot bound x x' (w ∷ l) y first rest above h =
    (first w h.0, Chain-transfer a a' slot bound w w l y (λ z. rest w z above.0) rest above.1 h.1)

pub mul-lt : (x y k : ℕ) → 0 < k → x < y → x * k < y * k
mul-lt x y k pos h = grind arith

pub mul-ne : (x y k : ℕ) → 0 < k → x ≢ y → x * k ≢ y * k
mul-ne x y k pos ne e = elim (dec_lt x y) [
  | yes below ↦ omega (arith, mul-lt x y k pos below)
  | no not_below ↦ omega (arith, mul-lt y x k pos (omega arith))
]

-- Swapping the entries of `i` and `j` exchanges where they point to.
module _ (a : List ℕ) (increment i j vi vj : ℕ) where
  abbrev pub swapped : List ℕ
  swapped = set (set a (i * increment) vj) (j * increment) vi

  module _ (pos : 0 < increment) (ne : i ≢ j) (at_i : get_elem? a (i * increment) ≡ some vi)
      (at_j : get_elem? a (j * increment) ≡ some vj) where
    pub swapped-i : get_elem? swapped (i * increment) ≡ some vj
    swapped-i =
        get_elem?-set_ne _ (j * increment) (i * increment) vi
          (mul-ne j i increment pos (λ e. ne (sym e)))
        ∙ get_elem?-set_self a (i * increment) vj (lt_of_get_elem? a _ at_i)

    pub swapped-j : get_elem? swapped (j * increment) ≡ some vi
    swapped-j =
        get_elem?-set_self _ (j * increment) vi
          (rw length-set (lt_of_get_elem? a (j * increment) at_j))

    pub swapped_other :
        (w : ℕ) → w ≢ i → w ≢ j → get_elem? swapped (w * increment) ≡ get_elem? a (w * increment)
    swapped_other w ni nj =
        get_elem?-set_ne _ (j * increment) (w * increment) vi
          (mul-ne j w increment pos (λ e. nj (sym e)))
        ∙ get_elem?-set_ne a (i * increment) (w * increment) vj
            (mul-ne i w increment pos (λ e. ni (sym e)))
