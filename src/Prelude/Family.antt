-- ===== src/Prelude/Family.antt =====
-- Families of things by number, such as the tasks of a runtime: writing one place, and adding up a
-- weight over the places below a bound.
use Prim.Native.Nat.{ℕ, zero, suc, ◌+◌, ◌≤◌, ◌<◌}
use mathlib.Core.Path.{◌≡◌, refl, ap, sym, subst}
use mathlib.Core.Logic.{◌≢◌}
use native.Mathlib.Decide.{dec_lt, ℕ_discrete}
use native.Mathlib.Omega.{arith}
use node_reqwest.Prelude.Tests.{◌==◌, if◌then◌else◌}

module _ {ℓ} {A : Type ℓ} where
  abbrev pub put : ℕ → A → (ℕ → A) → ℕ → A
  put i a family j = if i == j then a else family j

  pub put-here : (i : ℕ) (a : A) (family : ℕ → A) → put i a family i ≡ a
  put-here i a family = ground arith

  pub put-there : (i j : ℕ) (a : A) (family : ℕ → A) → i ≢ j → put i a family j ≡ family j
  put-there i j a family ne = ground arith

  -- What holds of the value written and of the old values elsewhere, holds of the new family.
  pub put_one {κ} :
      (P : A → Type κ) (i j : ℕ) (a : A) (family : ℕ → A)
      → (i ≡ j → P a)
      → (i ≢ j → P (family j))
      → P (put i a family j)
  put_one P i j a family here there = elim (ℕ_discrete i j) [
    | yes same ↦
        subst (λ k. P (put i a family k)) same (subst P (sym (put-here i a family)) (here same))
    | no other ↦ subst P (sym (put-there i j a family other)) (there other)
  ]

  unfoldable pub sum_below : ℕ → (A → ℕ) → (ℕ → A) → ℕ
  sum_below zero weight family = 0
  sum_below (suc n) weight family = weight (family n) + sum_below n weight family

  sum_below-put_out :
      (n : ℕ) (weight : A → ℕ) (family : ℕ → A) (i : ℕ) (a : A)
      → n ≤ i
      → sum_below n weight (put i a family) ≡ sum_below n weight family
  unfolding sum_below
  sum_below-put_out zero weight family i a out = refl
  sum_below-put_out (suc n) weight family i a out =
      ground (arith, sum_below-put_out n weight family i a)

  -- Writing place `i` exchanges its weight.
  pub sum_below-put :
      (n : ℕ) (weight : A → ℕ) (family : ℕ → A) (i : ℕ) (a : A)
      → i < n
      → sum_below n weight (put i a family) + weight (family i)
        ≡ sum_below n weight family + weight a
  unfolding sum_below
  sum_below-put zero weight family i a lt = absurd (omega arith)
  sum_below-put (suc n) weight family i a lt = elim (dec_lt i n) [
    | yes inside ↦ ground (arith, sum_below-put n weight family i a inside)
    | no edge ↦ ground (arith, sum_below-put_out n weight family i a)
  ]

  pub sum_below-le :
      (n : ℕ) (weight : A → ℕ) (family : ℕ → A)
      → ((a : A) → weight a ≤ 1)
      → sum_below n weight family ≤ n
  unfolding sum_below
  sum_below-le zero weight family small = omega arith
  sum_below-le (suc n) weight family small =
      omega (arith, small (family n), sum_below-le n weight family small)

  -- No place weighs more than the sum.
  pub le-sum_below :
      (n : ℕ) (weight : A → ℕ) (family : ℕ → A) (i : ℕ)
      → i < n
      → weight (family i) ≤ sum_below n weight family
  unfolding sum_below
  le-sum_below zero weight family i lt = absurd (omega arith)
  le-sum_below (suc n) weight family i lt = elim (dec_lt i n) [
    | yes inside ↦ omega (arith, le-sum_below n weight family i inside)
    | no edge ↦ ground arith
  ]

  pub sum_below-zero :
      (n : ℕ) (weight : A → ℕ) (a : A) → weight a ≡ 0 → sum_below n weight (λ _. a) ≡ 0
  unfolding sum_below
  sum_below-zero zero weight a h = refl
  sum_below-zero (suc n) weight a h = omega (arith, h, sum_below-zero n weight a h)

  -- The sum looks at the places below the bound only.
  pub sum_below-ext :
      (n : ℕ) (weight : A → ℕ) (f g : ℕ → A)
      → ((i : ℕ) → f i ≡ g i)
      → sum_below n weight f ≡ sum_below n weight g
  unfolding sum_below
  sum_below-ext zero weight f g same = refl
  sum_below-ext (suc n) weight f g same =
      omega (arith, ap weight (same n), sum_below-ext n weight f g same)

  -- A place that joins with no weight leaves the sum as it was.
  pub sum_below-enter :
      (n : ℕ) (weight : A → ℕ) (family : ℕ → A) (a : A)
      → weight a ≡ 0
      → sum_below (suc n) weight (put n a family) ≡ sum_below n weight family
  unfolding sum_below
  sum_below-enter n weight family a h =
      ground (arith, sum_below-put_out n weight family n a (omega arith))

  -- A positive sum has a place of positive weight.
  pub sum_below-pos :
      (n : ℕ) (weight : A → ℕ) (family : ℕ → A)
      → 0 < sum_below n weight family
      → (i : ℕ) × (i < n) × (0 < weight (family i))
  unfolding sum_below
  sum_below-pos zero weight family h = absurd (omega arith)
  sum_below-pos (suc n) weight family h = elim (dec_lt 0 (weight (family n))) [
    | yes here ↦ (n, omega arith, here)
    | no empty ↦
        let (i, lt, pos) = sum_below-pos n weight family (omega arith) in (i, omega arith, pos)
  ]

-- The same for two families that are written at one place.
pub put_two {α β κ} :
    {A : Type α} {B : Type β} (P : A → B → Type κ) (i j : ℕ) (a : A) (b : B) (f : ℕ → A) (g : ℕ → B)
    → (i ≡ j → P a b)
    → (i ≢ j → P (f j) (g j))
    → P (put i a f j) (put i b g j)
put_two P i j a b f g here there = elim (ℕ_discrete i j) [
  | yes same ↦
      subst (λ k. P (put i a f k) (put i b g k)) same
        (subst (λ y. P (put i a f i) y) (sym (put-here i b g))
          (subst (λ x. P x b) (sym (put-here i a f)) (here same)))
  | no other ↦
      subst (λ y. P (put i a f j) y) (sym (put-there i j b g other))
        (subst (λ x. P x (g j)) (sym (put-there i j a f other)) (there other))
]
