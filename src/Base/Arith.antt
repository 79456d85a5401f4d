-- ===== src/Base/Arith.antt =====
-- Arithmetic of quotients and remainders by a variable.
use Prim.Native.Nat.{ℕ, ◌+◌, ◌*◌, ◌/◌, ◌≤◌, ◌<◌}
use Prim.Native.Nat.{min}
use mathlib.Core.Path.{◌≡◌}
use native.Mathlib.Nat.{le-div_iff_mul-le, mul-le-mul_right}
use native.Mathlib.Omega.{arith}

pub div_bounds : (a b : ℕ) → 0 < b → (a / b * b ≤ a) × (a < a / b * b + b)
div_bounds a b h = grind arith

pub div_mono : (a b k : ℕ) → 0 < k → a ≤ b → a / k ≤ b / k
div_mono a b k h le = (le-div_iff_mul-le h).1 (omega (arith, (div_bounds a k h).0))

pub min-mul-le : (q w b : ℕ) → min q w * b ≤ q * b
min-mul-le q w b = mul-le-mul_right b (omega arith)

pub min-eq_of_lt : (q w : ℕ) → min q w < w → min q w ≡ q
min-eq_of_lt q w h = omega arith
