-- ===== src/Node/Handler/Echo.antt =====
-- packages/node/src/dispatch.rs, packages/core/src/agent.rs and packages/node/src/handler.rs: headers
-- from JavaScript to the request's lines, and from a response's lines back to JavaScript.
use node_reqwest.Prelude.{
  ◌≡◌, refl, ap, sym, ◌∙◌, Text, codes, text_eq, All, if◌then◌else◌, Option, none, some, List, [],
  ◌∷◌, arith, subst, Bool-cases, inl, inr,
}
use node_reqwest.Prelude.Outcome.{ok, err, Holds-ok}
use node_reqwest.Prelude.Maps.{find}
use node_reqwest.Error.{Headers}
use node_reqwest.Dispatcher.{max_headers}
use node_reqwest.Agent.Request.{HttpApi, header_calls, collect}
use node_reqwest.Agent.Request.Outgoing.{
  Readable, IsNormal, lines_of, lines_of-header_calls, received-header_calls, values-find, or_empty,
}
use node_reqwest.Node.Js.{Js}
use node_reqwest.Node.Dispatch.{get_string, headers_of}
use node_reqwest.Node.Dispatch.Bounds.{FewCalls, headers_of-FewCalls}
use node_reqwest.Node.Dispatch.Lines.{
  listed, IsSingle, Reads, headers_of-Reads, headers_of-EachName,
}
use node_reqwest.Node.Handler.{Property, JsObject, headers_to_js}
use node_reqwest.Node.Handler.Properties.{property, map_values}
use node_reqwest.Node.Handler.AnyOrder.{extended, headers_to_js-collect}

module _ (http : HttpApi) (js : Js) (obj : js.Value) where
  -- `to_str` takes every string of the object.
  abbrev pub IsPlain : Type 0
  IsPlain = (key v : Text) → get_string js obj key ≡ ok v → http.to_str v ≡ some v

  Readable-IsSingle :
      (headers : Headers)
      → IsPlain
      → All (IsSingle js obj) headers
      → All (λ entry. Readable http entry.1) headers
  Readable-IsSingle [] plain h = tt
  Readable-IsSingle ((k, vs) ∷ headers) plain ((key, v, got, one), h) = (
    subst (Readable http) (sym one) (ground (arith, plain key v got), tt),
    Readable-IsSingle headers plain h,
  )

  -- What the object has for a name among its own keys.
  abbrev pub read_back : List Text → Text → Option Property
  read_back keys key =
      if listed key keys
      then elim (get_string js obj key) [ ok v ↦ some (property key (v ∷ [])) | err _ ↦ none ]
      else none

  by_key :
      (keys : List Text) (headers : Headers) (key : Text)
      → Reads js obj keys [] headers
      → map_values key (extended none (or_empty (find key headers))) ≡ read_back keys key
  by_key keys headers key reads = elim (Bool-cases (listed key keys)) [
    | inl present ↦ let (v, got, found) = reads.here key present in rw (found, present, got) refl
    | inr absent ↦ rw (reads.there key absent, absent) refl
  ]

  -- Header options that are accepted from JavaScript, whose names are as `HeaderName` keeps them, in
  -- lower case, and in an object whose strings `to_str` takes, are sent as lines that, when a
  -- response has the same, are made into an object without an exception: it has a property for each
  -- own key of the options' object, of the same string (in an array for `set-cookie`), and none
  -- besides; a header named `__proto__` alone is lost.
  pub headers_to_js-echo :
      (keys : List Text) (headers : Headers)
      → headers_of js obj keys ≡ ok headers
      → All (IsNormal http) keys
      → IsPlain
      → (lines : List (Text × Text)) × (lines_of http (header_calls headers) ≡ some lines)
        × (result : JsObject) × (headers_to_js (collect http [] lines) ≡ ok result)
        × ((key : Text)
            → find key result
              ≡ (if text_eq key (codes "__proto__") then none else read_back keys key))
  headers_to_js-echo keys headers e normal plain =
      let few = Holds-ok (FewCalls js max_headers) _ (headers_of-FewCalls js obj keys) e in
      let (result, made, finds) =
        headers_to_js-collect http (header_calls headers) (omega (arith, few)) in
      let (reads, (unique, singles)) = headers_of-Reads js obj keys headers e in
      let clear = Readable-IsSingle headers plain singles in
      (
        header_calls headers,
        lines_of-header_calls http headers
            (headers_of-EachName js obj (IsNormal http) keys headers e normal),
        result,
        made,
        λ key.
            finds key
            ∙ ap (λ o. if text_eq key (codes "__proto__") then none else o)
                (ap (λ vs. map_values key (extended none vs))
                    (received-header_calls http key headers unique clear ∙ values-find key headers)
                  ∙ by_key keys headers key reads),
      )
