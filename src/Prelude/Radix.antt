-- ===== src/Prelude/Radix.antt =====
-- Digits of a mixed-radix number: `a * d + b` with `b < d`.
use Prim.Native.Nat.{ℕ, ◌+◌, ◌*◌, ◌/◌, ◌%◌, ◌^◌, ◌≤◌, ◌<◌}
use mathlib.Core.Path.{◌≡◌, ap}
use native.Mathlib.Nat.{div-add-mod', div-lt_iff_lt-mul, div-eq_of_lt-le}
use native.Mathlib.Omega.{arith}

pub radix-lt : (a b n d : ℕ) → a < n → b < d → a * d + b < n * d
radix-lt a b n d ha hb = grind arith

pub radix-div : (a b d : ℕ) → b < d → (a * d + b) / d ≡ a
radix-div a b d hb = div-eq_of_lt-le {k = a} d (omega arith) (omega arith)

pub radix-mod : (a b d : ℕ) → b < d → (a * d + b) % d ≡ b
radix-mod a b d hb =
    omega (arith, div-add-mod' (a * d + b) d, ap (λ (q : ℕ). q * d) (radix-div a b d hb))

-- A quotient lies below the number of rows that the dividend lies below.
pub div-lt : (x n d : ℕ) → 0 < d → x < n * d → x / d < n
div-lt x n d hd h = (div-lt_iff_lt-mul {k = d} {x = x} {y = n} hd).1 h

pub le-mul_pos : (a b : ℕ) → 0 < b → a ≤ a * b
le-mul_pos a b h = grind arith

pub u32-mod : (x d : ℕ) → 0 < d → d ≤ 2 ^ 32 → (x % d) % 2 ^ 32 ≡ x % d
u32-mod x d h w = omega arith

pub le-mul_left : (a b : ℕ) → 0 < a → b ≤ a * b
le-mul_left a b h = grind arith

pub mul_pos : (a b : ℕ) → 0 < a → 0 < b → 0 < a * b
mul_pos a b h k = grind arith
