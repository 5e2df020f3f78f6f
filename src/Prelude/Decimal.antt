-- ===== src/Prelude/Decimal.antt =====
-- Decimal numbers as `format!("{}")` writes an unsigned integer.
use Prim.Native.Nat.{ℕ, zero, suc, ◌+◌, ◌-◌, ◌*◌, ◌/◌, ◌%◌, ◌≤◌}
use mathlib.Core.Path.{◌≡◌, ap, ◌∙◌}
use mathlib.Core.List.{[], ◌∷◌}
use native.Mathlib.Omega.{arith}
use node_reqwest.Prelude.Tests.{ltb, if◌then◌else◌, if-intro}
use node_reqwest.Prelude.Bytes.{Text}
use node_reqwest.Prelude.Lists.{All, length}

-- The digits of `n` put in front of `rest`; each round divides by ten, so `n` rounds are enough.
print_onto : ℕ → ℕ → Text → Text
print_onto zero n rest = (b'0' + n % 10) ∷ rest
print_onto (suc fuel) n rest =
    let more = print_onto fuel (n / 10) ((b'0' + n % 10) ∷ rest) in
    if ltb n 10 then (b'0' + n) ∷ rest else more

unfoldable pub print : ℕ → Text
unfolding print_onto
print n = print_onto n n []

abbrev pub IsDigit : ℕ → Type 0
IsDigit b = (b'0' ≤ b) × (b ≤ b'9')

-- The number that digits spell behind those read so far.
abbrev pub value_from : ℕ → Text → ℕ
value_from n [] = n
value_from n (b ∷ bytes) = value_from (n * 10 + (b - b'0')) bytes

pub le-value_from : (n : ℕ) (s : Text) → n ≤ value_from n s
le-value_from n [] = omega arith
le-value_from n (b ∷ s) = omega (arith, le-value_from (n * 10 + (b - b'0')) s)

value_from-print_onto :
    (fuel n : ℕ) (rest : Text)
    → n ≤ fuel
    → value_from 0 (print_onto fuel n rest) ≡ value_from n rest
unfolding print_onto
value_from-print_onto zero n rest le = ap (λ k. value_from k rest) (omega arith)
value_from-print_onto (suc fuel) n rest le =
    if-intro (λ s. value_from 0 s ≡ value_from n rest) (ltb n 10)
      (λ _. ap (λ k. value_from k rest) (omega arith))
      λ big.
        value_from-print_onto fuel (n / 10) ((b'0' + n % 10) ∷ rest) (ground arith)
        ∙ ap (λ k. value_from k rest) (omega arith)

digits-print_onto :
    (fuel n : ℕ) (rest : Text) → All IsDigit rest → All IsDigit (print_onto fuel n rest)
unfolding print_onto
digits-print_onto zero n rest h = (omega arith, h)
digits-print_onto (suc fuel) n rest h =
    if-intro (All IsDigit) (ltb n 10) (λ small. (ground arith, h))
      (λ _. digits-print_onto fuel (n / 10) ((b'0' + n % 10) ∷ rest) (omega arith, h))

length-print_onto : (fuel n : ℕ) (rest : Text) → 1 + length rest ≤ length (print_onto fuel n rest)
unfolding print_onto
length-print_onto zero n rest = omega arith
length-print_onto (suc fuel) n rest =
    ground (arith, length-print_onto fuel (n / 10) ((b'0' + n % 10) ∷ rest))

-- A printed number is made of digits, has one at least, and reads back.
pub value_from-print : (n : ℕ) → value_from 0 (print n) ≡ n
unfolding print
value_from-print n = value_from-print_onto n n [] (omega arith)

pub digits-print : (n : ℕ) → All IsDigit (print n)
unfolding print
digits-print n = digits-print_onto n n [] tt

pub length-print : (n : ℕ) → 1 ≤ length (print n)
unfolding print
length-print n = omega (arith, length-print_onto n n [])
