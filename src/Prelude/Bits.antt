-- ===== src/Prelude/Bits.antt =====
-- `|` of a shifted number and one below the shift, which share no digit, is their sum.
use Prim.Native.Nat.{
  ℕ, zero, suc, ◌+◌, ◌*◌, ◌/◌, ◌^◌, ◌≤◌, ◌<◌, max, bit_or, digits, bit_or-bitwise,
}
use mathlib.Core.Path.{◌≡◌, refl, ap}
use native.Mathlib.Nat.{pow-suc}
use native.Mathlib.Omega.{arith}

abbrev or_digits : ℕ → ℕ → ℕ → ℕ
or_digits = digits (λ b. b) max

or_digits-zero : (n a : ℕ) → a ≤ n → or_digits n a 0 ≡ a
or_digits-zero zero a h = omega arith
or_digits-zero (suc n) zero h = refl
or_digits-zero (suc n) (suc a) h = omega (arith, or_digits-zero n (suc a / 2) (omega arith))

or_digits-shifted : (k n a b x : ℕ) → x ≡ a * 2 ^ k → x ≤ n → b < 2 ^ k → or_digits n x b ≡ x + b
or_digits-shifted k zero a b x e h l = omega arith
or_digits-shifted k (suc n) a b zero e h l = omega arith
or_digits-shifted zero (suc n) a b (suc x) e h l =
    let z : b ≡ 0 = omega arith in rw z (omega (arith, or_digits-zero (suc n) (suc x) h))
or_digits-shifted (suc k) (suc n) a b (suc x) e h l =
    let p : 2 ^ suc k ≡ 2 ^ k * 2 = pow-suc 2 k in
    let q : a * 2 ^ suc k ≡ a * 2 ^ k * 2 = omega (arith, ap (λ (t : ℕ). a * t) p) in
    omega
      (arith, or_digits-shifted k n a (b / 2) (suc x / 2) (omega arith) (omega arith) (omega arith))

pub bit_or-shifted : (k a b : ℕ) → b < 2 ^ k → bit_or (a * 2 ^ k) b ≡ a * 2 ^ k + b
bit_or-shifted k a b l = omega (
  arith,
  bit_or-bitwise (a * 2 ^ k) b,
  or_digits-shifted k (a * 2 ^ k) a b (a * 2 ^ k) refl (omega arith) l,
)
