-- ===== src/MemoryLatency/Pattern/Family.antt =====
-- Sums over the first `m` members of a family of lists.
use u_arch_test.Prelude.{ℕ, zero, suc, ◌+◌, ◌≤◌, ◌<◌, ◌≡◌, refl, List, if◌then◌else◌, ◌==◌, arith}
use native.Mathlib.Decide.{dec_lt}

abbrev pub update : (ℕ → List ℕ) → ℕ → List ℕ → ℕ → List ℕ
update f i l j = if i == j then l else f j

module _ (w : ℕ → List ℕ → ℕ) where
  abbrev pub total : ℕ → (ℕ → List ℕ) → ℕ
  total zero f = 0
  total (suc m) f = total m f + w m (f m)

  total-update_of_le :
      (m : ℕ) (f : ℕ → List ℕ) (i : ℕ) (l : List ℕ) → m ≤ i → total m (update f i l) ≡ total m f
  total-update_of_le zero f i l h = refl
  total-update_of_le (suc m) f i l h = ground (arith, total-update_of_le m f i l)

  pub total-update :
      (m : ℕ) (f : ℕ → List ℕ) (i : ℕ) (l : List ℕ)
      → i < m
      → total m (update f i l) + w i (f i) ≡ total m f + w i l
  total-update zero f i l h = absurd (omega arith)
  total-update (suc m) f i l h = elim (dec_lt i m) [
    | yes below ↦ ground (arith, total-update m f i l below)
    | no last ↦ ground (arith, total-update_of_le m f i l)
  ]
