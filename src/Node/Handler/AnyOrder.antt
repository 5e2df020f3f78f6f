-- ===== src/Node/Handler/AnyOrder.antt =====
-- packages/node/src/handler.rs and packages/core/src/agent.rs: a header map without an order. The
-- program walks a `HashMap`, whose order is not determined.
use mathlib.Core.Quot
use mathlib.Core.Quot.{Quot, Quot-set}
use node_reqwest.Prelude.{
  Bool, true, false, if-intro, length, ◌≤◌, ◌≡◌, refl, ap, ◌∙◌, Text, codes, text_eq, if◌then◌else◌,
  Option, none, some, List, [], ◌∷◌, ◌++◌, text_eq_iff, arith,
}
use node_reqwest.Prelude.Outcome.{ok}
use node_reqwest.Prelude.Maps.{find, Unique, AtMost, AtMost-le}
use node_reqwest.Error.{Headers}
use node_reqwest.Agent.Request.{HttpApi, header_value, push_entry, collect}
use node_reqwest.Agent.Request.Collect.{received, AtMost-collect}
use mathlib.Core.List.{append_assoc}
use node_reqwest.Node.Handler.{Property, JsObject, headers_to_js, two_32}
use node_reqwest.Node.Handler.Properties.{map_values, find-headers_to_js}

-- A header map as it may be walked: no name twice, and no more values than an array holds.
pub record Walk : Type 0 where
  pub headers : Headers
  pub unique : Unique headers
  pub fits : AtMost two_32 headers

-- Two walks of one map.
abbrev pub SameMap : Walk → Walk → Type 0
SameMap a b = (key : Text) → find key a.headers ≡ find key b.headers

abbrev pub HeaderMap : Type 0
HeaderMap = Quot SameMap

abbrev pub view : Walk → HeaderMap
view w = Quot.mk w

Property-set : IsSet (Option Property)
Property-set = hlevel

-- The property that the object for JavaScript gets for a name: a function of the map alone.
pub js_property : Text → HeaderMap → Option Property
js_property key =
    Quot.lift Property-set
      (λ w. if text_eq key (codes "__proto__") then none else map_values key (find key w.headers))
      (λ a b same.
        ap (λ o. if text_eq key (codes "__proto__") then none else map_values key o) (same key))

-- The object that `headers_to_js` makes depends on the map and not on the order in which it is
-- walked: it is made without an exception, and each of its properties is that of the map.
pub headers_to_js-js_property :
    (w : Walk)
    → (result : JsObject) × (headers_to_js w.headers ≡ ok result)
      × ((key : Text) → find key result ≡ js_property key (view w))
unfolding js_property
headers_to_js-js_property w = find-headers_to_js w.headers w.unique w.fits

-- What a name has behind more lines of a response.
abbrev pub extended : Option (List Text) → List Text → Option (List Text)
extended o [] = o
extended none (v ∷ vs) = some (v ∷ vs)
extended (some ws) (v ∷ vs) = some (ws ++ v ∷ vs)

-- The property that the values of one name become: none for no value or for `__proto__`.
abbrev pub property_for : Text → List Text → Option Property
property_for key values =
    if text_eq key (codes "__proto__") then none else map_values key (extended none values)

pushed : (o : Option (List Text)) (v : Text) → Option (List Text)
pushed none v = some (v ∷ [])
pushed (some ws) v = some (ws ++ v ∷ [])

find-push_entry :
    (key k v : Text) (acc : Headers)
    → find key (push_entry k v acc)
      ≡ (if text_eq k key then pushed (find key acc) v else find key acc)
unfolding push_entry pushed
find-push_entry key k v [] = ground arith
find-push_entry key k v ((j, vs) ∷ acc) =
    ground
      (arith, find-push_entry key k v acc, text_eq_iff j k, text_eq_iff k key, text_eq_iff j key)

extended-pushed :
    (o : Option (List Text)) (v : Text) (vs : List Text)
    → extended (pushed o v) vs ≡ extended o (v ∷ vs)
unfolding pushed
extended-pushed none v [] = refl
extended-pushed none v (w ∷ vs) = refl
extended-pushed (some ws) v [] = refl
extended-pushed (some ws) v (w ∷ vs) = ap some (append_assoc ws (v ∷ []) (w ∷ vs))

Unique-push_entry : (k v : Text) (acc : Headers) → Unique acc → Unique (push_entry k v acc)
unfolding push_entry
Unique-push_entry k v [] u = (refl, tt)
Unique-push_entry k v ((j, vs) ∷ acc) (absent, u) =
    if-intro Unique (text_eq j k) (λ _. (absent, u))
      (λ other. (
        ground (arith, find-push_entry j k v acc, text_eq_iff j k, text_eq_iff k j),
        Unique-push_entry k v acc u,
      ))

module _ (http : HttpApi) where
  find-collect :
      (key : Text) (entries : List (Text × Text)) (acc : Headers)
      → find key (collect http acc entries) ≡ extended (find key acc) (received http key entries)
  unfolding collect
  find-collect key [] acc = refl
  find-collect key ((k, v) ∷ entries) acc =
      find-collect key entries (push_entry k (header_value http v) acc)
      ∙ ap (λ o. extended o (received http key entries))
          (find-push_entry key k (header_value http v) acc)
      ∙ by_name (text_eq k key)
    where
      by_name :
          (b : Bool)
          → extended
              (if b then pushed (find key acc) (header_value http v) else find key acc)
              (received http key entries)
            ≡ extended (find key acc) (
                if b
                then header_value http v ∷ received http key entries
                else received http key entries)
      by_name true =
          extended-pushed (find key acc) (header_value http v) (received http key entries)
      by_name false = refl

  Unique-collect :
      (entries : List (Text × Text)) (acc : Headers)
      → Unique acc
      → Unique (collect http acc entries)
  unfolding collect
  Unique-collect [] acc u = u
  Unique-collect ((k, v) ∷ entries) acc u =
      Unique-collect entries (push_entry k (header_value http v) acc)
        (Unique-push_entry k (header_value http v) acc u)

  -- What JavaScript gets of a response with at most 2^32 header lines, name by name.
  pub headers_to_js-collect :
      (entries : List (Text × Text))
      → length entries ≤ two_32
      → (result : JsObject) × (headers_to_js (collect http [] entries) ≡ ok result)
        × ((key : Text) → find key result ≡ property_for key (received http key entries))
  headers_to_js-collect entries few =
      let (result, made, finds) =
        find-headers_to_js (collect http [] entries) (Unique-collect entries [] tt) (
          AtMost-le (collect http [] entries) (omega (arith, few))
            (AtMost-collect http 0 entries [] tt)) in
      (
        result,
        made,
        λ key.
            finds key
            ∙ ap (λ o. if text_eq key (codes "__proto__") then none else map_values key o)
                (find-collect key entries []),
      )

  -- The header map of a response with at most 2^32 header lines.
  pub response_map : (entries : List (Text × Text)) → length entries ≤ two_32 → Walk
  response_map entries few = record {
    headers = collect http [] entries;
    unique = Unique-collect entries [] tt;
    fits = AtMost-le (collect http [] entries) (omega arith) (AtMost-collect http 0 entries [] tt);
  }
