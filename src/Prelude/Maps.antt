-- ===== src/Prelude/Maps.antt =====
-- Maps with texts as keys, in the order in which they are walked.
use mathlib.Core.Path.{◌≡◌, refl}
use mathlib.Core.Option.{Option, none, some}
use mathlib.Core.List.{List, [], ◌∷◌}
use native.Mathlib.Omega.{arith}
use Prim.Native.Nat.{ℕ, ◌≤◌, suc}
use node_reqwest.Prelude.Tests.{if◌then◌else◌}
use node_reqwest.Prelude.Bytes.{Text, text_eq, text_eq_refl, text_eq_iff}
use node_reqwest.Prelude.Lists.{length}

module _ {ℓ} {A : Type ℓ} where
  -- `get`
  abbrev pub find : Text → List (Text × A) → Option A
  find key [] = none
  find key ((k, a) ∷ entries) = if text_eq k key then some a else find key entries

  -- `insert`, which replaces the value of a key that is there
  unfoldable pub insert_key : Text → A → List (Text × A) → List (Text × A)
  insert_key key a [] = (key, a) ∷ []
  insert_key key a ((k, b) ∷ entries) =
      if text_eq k key then (k, a) ∷ entries else (k, b) ∷ insert_key key a entries

  pub find-insert_key :
      (key k : Text) (a : A) (entries : List (Text × A))
      → find key (insert_key k a entries) ≡ (if text_eq k key then some a else find key entries)
  unfolding insert_key
  find-insert_key key k a [] = refl
  find-insert_key key k a ((j, b) ∷ entries) = ground (
    arith,
    find-insert_key key k a entries,
    text_eq_iff j k,
    text_eq_iff k key,
    text_eq_iff j key,
  )

  pub length-insert_key_le :
      (k : Text) (a : A) (entries : List (Text × A))
      → length (insert_key k a entries) ≤ suc (length entries)
  unfolding insert_key
  length-insert_key_le k a [] = ground arith
  length-insert_key_le k a ((j, b) ∷ entries) = ground (arith, length-insert_key_le k a entries)

  -- No key stands twice.
  abbrev pub Unique : List (Text × A) → Type ℓ
  Unique [] = Unit
  Unique ((k, _) ∷ entries) = (find k entries ≡ none) × Unique entries

-- No key has more than `n` values; an array of JavaScript holds 2^32.
abbrev pub AtMost {ℓ} : {A : Type ℓ} → ℕ → List (Text × List A) → Type 0
AtMost n [] = Unit
AtMost n ((_, values) ∷ entries) = (length values ≤ n) × AtMost n entries

pub AtMost-le {ℓ} :
    {A : Type ℓ} {n m : ℕ} (entries : List (Text × List A))
    → n ≤ m
    → AtMost n entries
    → AtMost m entries
AtMost-le [] h all = tt
AtMost-le ((_, values) ∷ entries) h (le, all) = (omega (arith, h, le), AtMost-le entries h all)

pub insert_key-insert_key {ℓ} :
    {A : Type ℓ} (k : Text) (a b : A) (entries : List (Text × A))
    → insert_key k a (insert_key k b entries) ≡ insert_key k a entries
unfolding insert_key
insert_key-insert_key k a b [] = ground (arith, text_eq_refl k)
insert_key-insert_key k a b ((j, c) ∷ entries) =
    ground (arith, text_eq_refl k, insert_key-insert_key k a b entries)
