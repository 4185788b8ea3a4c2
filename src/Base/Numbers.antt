-- ===== src/Base/Numbers.antt =====
-- Arithmetic that is not linear: products under an order, quotients.
use Prim.Native.Nat.{ℕ, ◌+◌, ◌-◌, ◌*◌, ◌/◌, ◌≤◌, ◌<◌}
use mathlib.Core.Path.{◌≡◌}
use native.Mathlib.Omega.{arith}

pub mul_mono : (k a b : ℕ) → a ≤ b → k * a ≤ k * b
mul_mono k a b h = grind arith

-- What a rate brings in from `a` to `b`, split off.
pub mul-sub : (k a b : ℕ) → a ≤ b → k * (b - a) + k * a ≡ k * b
mul-sub k a b h = grind arith

-- A quotient rounds down: one more than it is too much.
pub div_bounds : (a b : ℕ) → 0 < b → (b * (a / b) ≤ a) × (a < b * (a / b + 1))
div_bounds a b h = grind arith
