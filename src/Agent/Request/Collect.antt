-- ===== src/Agent/Request/Collect.antt =====
-- packages/core/src/agent.rs, `execute_request`: the map of the response's headers.
use mathlib.Core.List.{append_assoc, append-nil}
use node_reqwest.Prelude.{
  ℕ, suc, ◌+◌, length, length-append, if-intro, ◌≡◌, sym, ◌∙◌, Text, text_eq, text_eq_iff,
  if◌then◌else◌, List, [], ◌∷◌, ◌++◌, arith,
}
use node_reqwest.Prelude.Maps.{AtMost, AtMost-le}
use node_reqwest.Error.{Headers}
use node_reqwest.Agent.Request.{HttpApi, header_value, push_entry, collect}

-- The values under a key of the map, and those of a header among the response's entries.
abbrev pub values : Text → Headers → List Text
values key [] = []
values key ((k, vs) ∷ acc) = if text_eq k key then vs else values key acc

values-push_entry :
    (key k v : Text) (acc : Headers)
    → values key (push_entry k v acc)
      ≡ (if text_eq k key then values key acc ++ v ∷ [] else values key acc)
unfolding push_entry
values-push_entry key k v [] = ground arith
values-push_entry key k v ((j, vs) ∷ acc) =
    ground
      (arith, values-push_entry key k v acc, text_eq_iff j k, text_eq_iff k key, text_eq_iff j key)

AtMost-push_entry :
    (key v : Text) (n : ℕ) (acc : Headers) → AtMost n acc → AtMost (suc n) (push_entry key v acc)
unfolding push_entry
AtMost-push_entry key v n [] all = (omega arith, tt)
AtMost-push_entry key v n ((k, vs) ∷ acc) (le, all) =
    if-intro (AtMost (suc n)) (text_eq k key)
      (λ _. (omega (arith, le, length-append vs (v ∷ [])), AtMost-le acc (omega arith) all))
      (λ _. (omega (arith, le), AtMost-push_entry key v n acc all))

module _ (http : HttpApi) where
  -- A map of the response's headers has at most as many values under a name as there are entries.
  pub AtMost-collect :
      (n : ℕ) (entries : List (Text × Text)) (acc : Headers)
      → AtMost n acc
      → AtMost (n + length entries) (collect http acc entries)
  unfolding collect
  AtMost-collect n [] acc all = AtMost-le acc (omega arith) all
  AtMost-collect n ((k, v) ∷ entries) acc all =
      AtMost-le (collect http (push_entry k (header_value http v) acc) entries) (omega arith)
        (AtMost-collect (suc n) entries _ (AtMost-push_entry k (header_value http v) n acc all))

  abbrev pub received : Text → List (Text × Text) → List Text
  received key [] = []
  received key ((k, v) ∷ entries) =
      let rest = received key entries in if text_eq k key then header_value http v ∷ rest else rest

  -- Under each name the map has exactly the values that the response has for it, in their order.
  pub values-collect :
      (key : Text) (entries : List (Text × Text)) (acc : Headers)
      → values key (collect http acc entries) ≡ values key acc ++ received key entries
  unfolding collect
  values-collect key [] acc = sym (append-nil (values key acc))
  values-collect key ((k, v) ∷ entries) acc =
      values-collect key entries (push_entry k (header_value http v) acc)
      ∙ ground (
        arith,
        values-push_entry key k (header_value http v) acc,
        append_assoc (values key acc) (header_value http v ∷ []) (received key entries),
      )
