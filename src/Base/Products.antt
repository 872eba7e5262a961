-- ===== src/Base/Products.antt =====
-- Orders between products with a common factor.
use Prim.Native.Nat.{ℕ, ◌+◌, ◌*◌, ◌/◌, ◌%◌, ◌≤◌, ◌<◌}
use mathlib.Core.Path.{◌≡◌, ap, ◌∙◌}
use native.Mathlib.Nat.{div-add-mod, mod-lt}
use native.Mathlib.Decide.{dec_lt}
use native.Mathlib.Omega.{arith}

pub le-mul_pos : (x b : ℕ) → 0 < b → x ≤ x * b
le-mul_pos x b h = grind arith

pub mul_mono : (x y b : ℕ) → x ≤ y → x * b ≤ y * b
mul_mono x y b h = grind arith

pub mul_step : (x y b : ℕ) → x < y → x * b + b ≤ y * b
mul_step x y b h = omega (arith, mul_mono (x + 1) y b (omega arith))

pub lt_of_mul_lt : (x y b : ℕ) → x * b < y * b → x < y
lt_of_mul_lt x y b h = elim (dec_lt x y) [
  | yes p ↦ p
  | no p ↦ absurd (omega (arith, mul_mono y x b (omega arith)))
]

-- A multiple of `m` ends at least `m` below the next multiple of a multiple of `m`.
pub mod_aligned : (n m k b : ℕ) → 0 < b → 0 < m → b ≡ m * k → n * m % b + m ≤ b
mod_aligned n m k b pos unit whole =
    let q = n * m / b in
    let split : b * q + n * m % b ≡ n * m = div-add-mod (n * m) b in
    let below : n * m % b < b = mod-lt (n * m) pos in
    let multiple : b * q ≡ k * q * m = ap (λ (t : ℕ). t * q) whole ∙ omega arith in
    let whole' : b ≡ k * m = omega arith in
    omega (arith, mul_step n (k * q + k) m (lt_of_mul_lt n (k * q + k) m (omega arith)))
