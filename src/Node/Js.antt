-- ===== src/Node/Js.antt =====
-- What packages/node uses of neon and num_traits: JavaScript values, their conversions and numbers.
use node_reqwest.Prelude.{
  ℕ, ◌^◌, ◌≤◌, ◌<◌, ◌≡◌, ◌≢◌, ◌⊎◌, ◌==◌, Text, Bool, true, false, not, ◌&&◌, ◌||◌, Option, none,
  some, List,
}
use node_reqwest.Prelude.Outcome.{Result}

-- An `f64` as the code reads it: its sign, its whole part and whether there is a fraction.
pub data Number : Type 0 where
  nan : Number
  infinite : (negative : Bool) → Number
  finite : (negative : Bool) (whole : ℕ) (fractional : Bool) → Number

abbrev pub is_nan : Number → Bool
is_nan nan = true
is_nan (infinite _) = false
is_nan (finite _ _ _) = false

-- `n == 0.0`, which holds of -0.0 too
abbrev pub is_zero : Number → Bool
is_zero nan = false
is_zero (infinite _) = false
is_zero (finite _ whole fractional) = (whole == 0) && not fractional

-- `n < 0.0`
abbrev pub below_zero : Number → Bool
below_zero nan = false
below_zero (infinite negative) = negative
below_zero (finite negative whole fractional) =
    negative && not (is_zero (finite negative whole fractional))

-- `n.max(0.0)`, which drops a NaN
abbrev pub max_zero : Number → Number
max_zero nan = finite false 0 false
max_zero (infinite true) = finite false 0 false
max_zero (infinite false) = infinite false
max_zero (finite true _ _) = finite false 0 false
max_zero (finite false whole fractional) = finite false whole fractional

-- `cast w` is `num_traits::cast` from `f64` to the unsigned type of `w` bits: it truncates towards
-- zero and gives nothing out of range.
pub record Cast : Type 0 where
  pub cast : ℕ → Number → Option ℕ
  pub cast-inside :
      (w : ℕ) (negative : Bool) (n : ℕ) (fractional : Bool)
      → (negative ≡ false) ⊎ (n ≡ 0)
      → n < 2 ^ w
      → cast w (finite negative n fractional) ≡ some n
  pub cast-above :
      (w : ℕ) (negative : Bool) (n : ℕ) (fractional : Bool)
      → 2 ^ w ≤ n
      → cast w (finite negative n fractional) ≡ none
  pub cast-below : (w n : ℕ) (fractional : Bool) → n ≢ 0 → cast w (finite true n fractional) ≡ none
  pub cast-infinite : (w : ℕ) (negative : Bool) → cast w (infinite negative) ≡ none
  pub cast-nan : (w : ℕ) → cast w nan ≡ none

-- JavaScript through neon. `Thrown` is an exception that is on its way; a property can throw when it
-- is read, and a downcast throws on a value of another type.
pub record Js : Type 1 where
  pub Value : Type 0
  pub Thrown : Type 0
  pub error : Text → Thrown
  pub get : Value → Text → Result Thrown Value
  pub own_property_names : Value → Result Thrown (List Text)
  pub elements : Value → Result Thrown (List Value)  -- of a `JsArray`
  pub is_null : Value → Bool
  pub is_undefined : Value → Bool
  pub is_string : Value → Bool
  pub as_string : Value → Result Thrown Text
  pub as_number : Value → Result Thrown Number
  pub as_boolean : Value → Result Thrown Bool
  pub as_object : Value → Result Thrown Value
  pub as_function : Value → Result Thrown Value
  pub as_bytes : Value → Result Thrown Text  -- the bytes of a `JsTypedArray<u8>`
  pub numbers : Cast

abbrev pub is_nullish : (js : Js) → js.Value → Bool
is_nullish js v = js.is_null v || js.is_undefined v
