-- ===== src/Agent/Request/Outgoing.antt =====
-- packages/core/src/agent.rs, `execute_request`: the header lines of a request, read as those of a
-- response.
use mathlib.Core.List.{append-nil}
use node_reqwest.Prelude.{
  ◌≡◌, refl, ◌∙◌, Text, text_eq, text_eq_iff, All, if◌then◌else◌, Option, none, some, List, [], ◌∷◌,
  ◌++◌, arith,
}
use node_reqwest.Prelude.Maps.{find, Unique}
use node_reqwest.Error.{Headers}
use node_reqwest.Agent.Request.{HttpApi, value_pairs, header_calls, header_value}
use node_reqwest.Agent.Request.Collect.{values, received}

abbrev pub or_empty : Option (List Text) → List Text
or_empty none = []
or_empty (some vs) = vs

pub values-find :
    (key : Text) (headers : Headers) → values key headers ≡ or_empty (find key headers)
values-find key [] = refl
values-find key ((k, vs) ∷ headers) = ground (arith, values-find key headers)

module _ (http : HttpApi) where
  -- `to_str` takes these values, or decoding changes nothing.
  abbrev pub Readable : List Text → Type 0
  Readable vs = All (λ v. header_value http v ≡ v) vs

  received-value_pairs :
      (key k : Text) (vs : List Text) (rest : List (Text × Text))
      → Readable vs
      → received http key (value_pairs k vs ++ rest)
        ≡ (if text_eq k key then vs ++ received http key rest else received http key rest)
  received-value_pairs key k [] rest h = ground arith
  received-value_pairs key k (v ∷ vs) rest (clear, h) =
      ground (arith, clear, received-value_pairs key k vs rest h)

  -- The lines that are sent give each name the values of the map.
  pub received-header_calls :
      (key : Text) (headers : Headers)
      → Unique headers
      → All (λ entry. Readable entry.1) headers
      → received http key (header_calls headers) ≡ values key headers
  unfolding header_calls
  received-header_calls key [] u h = refl
  received-header_calls key ((k, vs) ∷ headers) (absent, u) (clear, h) =
      received-value_pairs key k vs (header_calls headers) clear
      ∙ ground (
        arith,
        received-header_calls key headers u h,
        values-find key headers,
        text_eq_iff k key,
        absent,
        append-nil vs,
      )

  -- The lines of a request: each name is taken through `HeaderName`, and a request with a name that
  -- is refused is not sent.
  abbrev pub lines_of : List (Text × Text) → Option (List (Text × Text))
  lines_of [] = some []
  lines_of ((k, v) ∷ calls) =
      let rest = lines_of calls in
      elim (http.header_name k) [
        | some name ↦ elim rest [ some lines ↦ some ((name, v) ∷ lines) | none ↦ none ]
        | none ↦ none
      ]

  -- A name that `HeaderName` leaves as it is.
  abbrev pub IsNormal : Text → Type 0
  IsNormal k = http.header_name k ≡ some k

  lines_of-value_pairs :
      (k : Text) (vs : List Text) (calls : List (Text × Text))
      → IsNormal k
      → lines_of calls ≡ some calls
      → lines_of (value_pairs k vs ++ calls) ≡ some (value_pairs k vs ++ calls)
  lines_of-value_pairs k [] calls normal h = h
  lines_of-value_pairs k (v ∷ vs) calls normal h =
      rw (normal, lines_of-value_pairs k vs calls normal h) refl

  pub lines_of-header_calls :
      (headers : Headers)
      → All (λ entry. IsNormal entry.0) headers
      → lines_of (header_calls headers) ≡ some (header_calls headers)
  unfolding header_calls
  lines_of-header_calls [] h = refl
  lines_of-header_calls ((k, vs) ∷ headers) (normal, h) =
      lines_of-value_pairs k vs (header_calls headers) normal (lines_of-header_calls headers h)
