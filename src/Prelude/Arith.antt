-- ===== src/Prelude/Arith.antt =====
-- Products and quotients at variables.
use Prim.Native.Nat.{ℕ, ◌+◌, ◌*◌, ◌/◌, ◌≤◌, ◌<◌}
use native.Mathlib.Omega.{arith}

pub mul-le-mul : (a b k : ℕ) → a ≤ b → a * k ≤ b * k
mul-le-mul a b k h = grind arith

pub mul-lt-mul : (a b k : ℕ) → 0 < k → a < b → a * k < b * k
mul-lt-mul a b k pos h = grind arith

pub div-mul-le : (a b : ℕ) → a / b * b ≤ a
div-mul-le a b = grind arith

pub lt-div-mul : (a b : ℕ) → 0 < b → a < (a / b + 1) * b
lt-div-mul a b h = grind arith

pub div-le : (a b : ℕ) → 0 < b → a / b ≤ a
div-le a b h = grind arith
