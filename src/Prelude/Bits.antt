-- ===== src/Prelude/Bits.antt =====
-- `|` of two numbers whose digits do not meet is their sum.
use Prim.Native.Nat.{
  ℕ, zero, suc, ◌+◌, ◌*◌, ◌/◌, ◌^◌, ◌≤◌, ◌<◌, max, digits, bit_or, bit_or-bitwise,
}
use mathlib.Core.Path.{◌≡◌, refl, ap, ◌∙◌}
use native.Mathlib.Nat.{pow-suc}
use native.Mathlib.Omega.{arith}

-- The digits of `a` and `r`, `n` of them to go, from the lowest on.
abbrev or_digits : ℕ → ℕ → ℕ → ℕ
or_digits n a r = digits (λ b. b) max n a r

or_digits-zero : (n a : ℕ) → a ≤ n → or_digits n a 0 ≡ a
or_digits-zero zero a fuel = omega arith
or_digits-zero (suc n) zero fuel = refl
or_digits-zero (suc n) (suc a) fuel = omega (arith, or_digits-zero n (suc a / 2) (omega arith))

twice : (q k : ℕ) → q * 2 ^ suc k ≡ 2 * (q * 2 ^ k)
twice q k = omega (arith, ap (λ (p : ℕ). q * p) (pow-suc 2 k))

or_digits-sum : (k n a q r : ℕ) → a ≡ q * 2 ^ k → a ≤ n → r < 2 ^ k → or_digits n a r ≡ a + r
or_digits-sum zero n a q zero shape fuel low = omega (arith, or_digits-zero n a fuel)
or_digits-sum zero n a q (suc r) shape fuel low = absurd (omega arith)
or_digits-sum (suc k) zero a q r shape fuel low = omega arith
or_digits-sum (suc k) (suc n) zero q r shape fuel low = omega arith
or_digits-sum (suc k) (suc n) (suc a) q r shape fuel low =
    let even = twice q k in
    omega (
      arith,
      even,
      or_digits-sum k n (suc a / 2) q (r / 2) (omega arith) (omega arith)
          (omega (arith, pow-suc 2 k)),
    )

-- A number shifted by `k` places, and one of at most `k` places.
pub bit_or-shifted : (k q r : ℕ) → r < 2 ^ k → bit_or (q * 2 ^ k) r ≡ q * 2 ^ k + r
bit_or-shifted k q r low =
    bit_or-bitwise (q * 2 ^ k) r
    ∙ or_digits-sum k (q * 2 ^ k) (q * 2 ^ k) q r refl (omega arith) low
