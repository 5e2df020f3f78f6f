-- ===== src/Node/Plain.antt =====
-- JavaScript values for the examples, with conversions as neon and num_traits document them.
use node_reqwest.Prelude.{
  ℕ, ◌^◌, ◌≤◌, ◌<◌, ◌≡◌, ◌≢◌, ◌⊎◌, refl, ◌==◌, Text, codes, text_eq, ltb, if◌then◌else◌, Bool, true,
  false, Option, none, some, List, [], ◌∷◌, arith,
}
use node_reqwest.Prelude.Outcome.{Result, ok, err}
use node_reqwest.Node.Js.{Number, nan, infinite, finite, Cast, Js}

abbrev in_range : ℕ → ℕ → Option ℕ
in_range w n = if ltb n (2 ^ w) then some n else none

abbrev pub plain_number : ℕ → Number → Option ℕ
plain_number w nan = none
plain_number w (infinite _) = none
plain_number w (finite true n _) = if n == 0 then in_range w n else none
plain_number w (finite false n _) = in_range w n

pub inside :
    (w : ℕ) (negative : Bool) (n : ℕ) (fractional : Bool)
    → (negative ≡ false) ⊎ (n ≡ 0)
    → n < 2 ^ w
    → plain_number w (finite negative n fractional) ≡ some n
inside w true n fractional h lt = ground (arith, h, lt)
inside w false n fractional h lt = ground (arith, lt)

pub above :
    (w : ℕ) (negative : Bool) (n : ℕ) (fractional : Bool)
    → 2 ^ w ≤ n
    → plain_number w (finite negative n fractional) ≡ none
above w true n fractional le = ground (arith, le)
above w false n fractional le = ground (arith, le)

pub below : (w n : ℕ) (fractional : Bool) → n ≢ 0 → plain_number w (finite true n fractional) ≡ none
below w n fractional h = ground (arith, h)

abbrev pub plain_cast : Cast
plain_cast = record {
  cast = plain_number;
  cast-inside = inside;
  cast-above = above;
  cast-below = below;
  cast-infinite = λ w negative. refl;
  cast-nan = λ w. refl;
}

mutual
  pub data Plain : Type 0 where
    null undefined function : Plain
    number : Number → Plain
    string : Text → Plain
    boolean : Bool → Plain
    bytes : Text → Plain
    object : Members → Plain

  -- The members of an object, or of an array under any names.
  pub data Members : Type 0 where
    end : Members
    member : Text → Plain → Members → Members

abbrev pub property : Text → Members → Plain
property key end = undefined
property key (member k v members) = if text_eq k key then v else property key members

abbrev pub names : Members → List Text
names end = []
names (member k v members) = k ∷ names members

abbrev pub values_of : Members → List Plain
values_of end = []
values_of (member k v members) = v ∷ values_of members

abbrev pub type_error : Text
type_error = codes "TypeError"

abbrev get : Plain → Text → Result Text Plain
get (object members) key = ok (property key members)
get _ key = err type_error

abbrev own_property_names : Plain → Result Text (List Text)
own_property_names (object members) = ok (names members)
own_property_names _ = err type_error

abbrev elements : Plain → Result Text (List Plain)
elements (object members) = ok (values_of members)
elements _ = err type_error

abbrev is_null : Plain → Bool
is_null null = true
is_null _ = false

abbrev is_undefined : Plain → Bool
is_undefined undefined = true
is_undefined _ = false

abbrev is_string : Plain → Bool
is_string (string _) = true
is_string _ = false

abbrev as_string : Plain → Result Text Text
as_string (string s) = ok s
as_string _ = err type_error

abbrev as_number : Plain → Result Text Number
as_number (number n) = ok n
as_number _ = err type_error

abbrev as_boolean : Plain → Result Text Bool
as_boolean (boolean b) = ok b
as_boolean _ = err type_error

abbrev as_object : Plain → Result Text Plain
as_object (object members) = ok (object members)
as_object _ = err type_error

abbrev as_function : Plain → Result Text Plain
as_function function = ok function
as_function _ = err type_error

abbrev as_bytes : Plain → Result Text Text
as_bytes (bytes s) = ok s
as_bytes _ = err type_error

abbrev pub plain_js : Js
plain_js = record {
  Value = Plain;
  Thrown = Text;
  error = λ message. message;
  get = get;
  own_property_names = own_property_names;
  elements = elements;
  is_null = is_null;
  is_undefined = is_undefined;
  is_string = is_string;
  as_string = as_string;
  as_number = as_number;
  as_boolean = as_boolean;
  as_object = as_object;
  as_function = as_function;
  as_bytes = as_bytes;
  numbers = plain_cast;
}
