-- ===== src/Prelude/Checked.antt =====
-- Computations that can fault: `none` is a step that C leaves undefined, such as an access out of
-- bounds or a division by zero.
use Prim.Native.Nat.{ℕ, ◌+◌, ◌^◌, ◌/◌, ◌<◌}
use mathlib.Core.Path.{◌≡◌, refl}
use mathlib.Core.List.{List, []}
use mathlib.Core.Option.{Option, none, some}
use native.Mathlib.Omega.{arith}
use u_arch_test.Prelude.Tests.{ltb, ◌==◌, if◌then◌else◌, lt→ltb}
use u_arch_test.Prelude.Lists.{length, set}

infixl 5 ◌>>=◌
abbrev pub ◌>>=◌ {ℓ κ} : {A : Type ℓ} {B : Type κ} → Option A → (A → Option B) → Option B
none >>= f = none
some a >>= f = f a

pub bind-none {ℓ κ} :
    {A : Type ℓ} {B : Type κ} (m : Option A) {f : A → Option B}
    → ((a : A) → f a ≡ none)
    → (m >>= f) ≡ none
bind-none none h = refl
bind-none (some a) h = h a

module _ {ℓ} {A : Type ℓ} where
  -- `xs[i] = v`
  unfoldable pub store : List A → ℕ → A → Option (List A)
  store xs i v = if ltb i (length xs) then some (set xs i v) else none

  pub store_lem : (xs : List A) (i : ℕ) (v : A) → i < length xs → store xs i v ≡ some (set xs i v)
  unfolding store
  store_lem xs i v h = rw (lt→ltb i (length xs) h)

-- `a / b` on unsigned operands
unfoldable pub checked_div : ℕ → ℕ → Option ℕ
checked_div a b = if b == 0 then none else some (a / b)

pub checked_div_lem : (a b : ℕ) → 0 < b → checked_div a b ≡ some (a / b)
unfolding checked_div
checked_div_lem a b h = ground arith

-- The slots of what malloc returned: NULL has none, so that every access to it faults.
abbrev pub block_slots {ℓ} : {A : Type ℓ} → Option (List A) → List A
block_slots none = []
block_slots (some xs) = xs

-- `i + 1` on int
unfoldable pub next_int : ℕ → Option ℕ
next_int i = if ltb (i + 1) (2 ^ 31) then some (i + 1) else none

pub next_int_lem : (i : ℕ) → i + 1 < 2 ^ 31 → next_int i ≡ some (i + 1)
unfolding next_int
next_int_lem i h = ground arith

-- A value computed on int.
unfoldable pub int_value : ℕ → Option ℕ
int_value i = if ltb i (2 ^ 31) then some i else none

pub int_value_lem : (i : ℕ) → i < 2 ^ 31 → int_value i ≡ some i
unfolding int_value
int_value_lem i h = ground arith
