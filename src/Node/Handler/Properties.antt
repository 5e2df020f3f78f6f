-- ===== src/Node/Handler/Properties.antt =====
-- packages/node/src/handler.rs: the object that is made of a header map.
use node_reqwest.Prelude.{
  ℕ, ◌+◌, ◌≤◌, ◌≡◌, refl, ap, ◌∙◌, Text, codes, text_eq, text_eq_iff, length, lt→ltb, if◌then◌else◌,
  if-intro, Option, none, some, List, [], ◌∷◌, arith,
}
use node_reqwest.Prelude.Outcome.{ok}
use node_reqwest.Prelude.Maps.{find, find-insert_key, Unique, AtMost}
use node_reqwest.Error.{Headers}
use node_reqwest.Node.Handler.{
  Property, string, array, JsObject, set, two_32, elements_from, always_array, array_of,
  property_of, set_headers, headers_to_js,
}

-- A single value is a string, unless the header is `set-cookie`; all else is an array.
abbrev pub property : Text → List Text → Property
property key [] = array []
property key (v ∷ []) = if always_array key then array (v ∷ []) else string v
property key (v ∷ w ∷ values) = array (v ∷ w ∷ values)

elements_from-ok :
    (key : Text) (i : ℕ) (values : List Text)
    → i + length values ≤ two_32
    → elements_from key i values ≡ ok values
unfolding elements_from
elements_from-ok key i [] h = refl
elements_from-ok key i (v ∷ values) h =
    rw (lt→ltb i two_32 (omega (arith, h)), elements_from-ok key (i + 1) values (omega (arith, h)))
      refl

property_of-ok :
    (key : Text) (values : List Text)
    → length values ≤ two_32
    → property_of key values ≡ ok (property key values)
unfolding property_of array_of
property_of-ok key [] h = refl
property_of-ok key (v ∷ []) h = ground arith
property_of-ok key (v ∷ w ∷ values) h =
    rw (array_of, elements_from-ok key 0 (v ∷ w ∷ values) (omega (arith, h))) refl

set_headers-ok :
    (headers : Headers) (obj : JsObject)
    → AtMost two_32 headers
    → (result : JsObject) × (set_headers headers obj ≡ ok result)
unfolding set_headers
set_headers-ok [] obj f = (obj, refl)
set_headers-ok ((k, values) ∷ headers) obj (fits, f) =
    let (result, made) = set_headers-ok headers (set k (property k values) obj) f in
    (result, rw (property_of-ok k values fits) made)

pub headers_to_js-ok :
    (headers : Headers)
    → AtMost two_32 headers
    → (result : JsObject) × (headers_to_js headers ≡ ok result)
unfolding headers_to_js
headers_to_js-ok headers f = set_headers-ok headers [] f

abbrev own : Text → Option (List Text) → Option Property → Option Property
own key none before = before
own key (some values) before = some (property key values)

find-set :
    (key k : Text) (p : Property) (obj : JsObject)
    → find key (set k p obj) ≡ (
        if text_eq k (codes "__proto__")
        then find key obj
        else if text_eq k key
        then some p
        else find key obj)
unfolding set
find-set key k p obj =
    if-intro
      (λ o. find key o ≡ (
        if text_eq k (codes "__proto__")
        then find key obj
        else if text_eq k key
        then some p
        else find key obj))
      (text_eq k (codes "__proto__")) (λ e. rw e refl) (λ e. rw e (find-insert_key key k p obj))

find-set_headers :
    (headers : Headers) (obj : JsObject)
    → Unique headers
    → AtMost two_32 headers
    → (result : JsObject) × (set_headers headers obj ≡ ok result)
      × ((key : Text)
          → find key result ≡ (
              if text_eq key (codes "__proto__")
              then find key obj
              else own key (find key headers) (find key obj)))
unfolding set_headers
find-set_headers [] obj u f = (obj, refl, λ key. ground arith)
find-set_headers ((k, values) ∷ headers) obj (absent, u) (fits, f) =
    let (result, made, finds) = find-set_headers headers (set k (property k values) obj) u f in
    (
      result,
      rw (property_of-ok k values fits) made,
      λ key. ground (
        arith,
        absent,
        finds key,
        find-set key k (property k values) obj,
        text_eq_iff k key,
        text_eq_iff key (codes "__proto__"),
        text_eq_iff k (codes "__proto__"),
      ),
    )

abbrev pub map_values : Text → Option (List Text) → Option Property
map_values key none = none
map_values key (some values) = some (property key values)

-- Header maps that name no header twice and give none more than 2^32 values are made into an object
-- without an exception: it has a property for each header, a string for a single value and an array
-- for more or for `set-cookie` in any case, and none besides; a header named `__proto__` alone is lost.
pub find-headers_to_js :
    (headers : Headers)
    → Unique headers
    → AtMost two_32 headers
    → (result : JsObject) × (headers_to_js headers ≡ ok result)
      × ((key : Text)
          → find key result
            ≡ (if text_eq key (codes "__proto__") then none else map_values key (find key headers)))
unfolding headers_to_js
find-headers_to_js headers unique fits =
    let (result, made, finds) = find-set_headers headers [] unique fits in
    (
      result,
      made,
      λ key.
          finds key
          ∙ ap (λ o. if text_eq key (codes "__proto__") then none else o)
              (own-none key (find key headers)),
    )
  where
    own-none : (key : Text) (o : Option (List Text)) → own key o none ≡ map_values key o
    own-none key none = refl
    own-none key (some values) = refl
