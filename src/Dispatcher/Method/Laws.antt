-- ===== src/Dispatcher/Method/Laws.antt =====
-- packages/core/src/dispatcher.rs, `parse_method`: the names it takes, and those it refuses.
use node_reqwest.Prelude.{
  ℕ, ◌≡◌, ◌≢◌, ◌⊎◌, inl, inr, ◌↔◌, refl, ap, ◌∙◌, sym, Text, codes, Option, none, some, [], ◌∷◌,
  arith,
}
use node_reqwest.Prelude.Outcome.{ok, err}
use node_reqwest.Error.{CoreError, not_supported}
use node_reqwest.Dispatcher.Method.{
  MethodApi, upper, lower, to_ascii_uppercase, to_ascii_lowercase, from_upper, parse_method,
}

upper-lower : (b : ℕ) → upper (lower b) ≡ upper b
upper-lower b = ground arith

upper-upper : (b : ℕ) → upper (upper b) ≡ upper b
upper-upper b = ground arith

uppercase-lowercase : (s : Text) → to_ascii_uppercase (to_ascii_lowercase s) ≡ to_ascii_uppercase s
unfolding to_ascii_uppercase
uppercase-lowercase [] = refl
uppercase-lowercase (b ∷ s) = rw (upper-lower b, uppercase-lowercase s)

uppercase-uppercase : (s : Text) → to_ascii_uppercase (to_ascii_uppercase s) ≡ to_ascii_uppercase s
unfolding to_ascii_uppercase
uppercase-uppercase [] = refl
uppercase-uppercase (b ∷ s) = rw (upper-upper b, uppercase-uppercase s)

abbrev pub refusal : CoreError
refusal = not_supported (codes "CONNECT/TRACE not supported")

module _ (api : MethodApi) where
  open api use {Method, as_str, connect, trace, from_bytes}

  from_upper-eq-ok :
      (o : Option Method) (m : Method)
      → from_upper api o ≡ ok m
      → (o ≡ some m) × (m ≢ connect) × (m ≢ trace)
  unfolding from_upper
  from_upper-eq-ok none m e = cc
  from_upper-eq-ok (some n) m e =
      ground (arith, api.method_eq_iff n connect, api.method_eq_iff n trace)

  from_upper-eq-refused :
      (o : Option Method) → from_upper api o ≡ err refusal → (o ≡ some connect) ⊎ (o ≡ some trace)
  unfolding from_upper
  from_upper-eq-refused none e = cc
  from_upper-eq-refused (some m) e =
      ground (arith, api.method_eq_iff m connect, api.method_eq_iff m trace)

  from_upper-refused :
      (m : Method) → (m ≡ connect) ⊎ (m ≡ trace) → from_upper api (some m) ≡ err refusal
  unfolding from_upper
  from_upper-refused m h = ground (arith, api.method_eq_iff m connect, api.method_eq_iff m trace)

  -- A name is accepted only if its upper-case form is a method name other than CONNECT and TRACE, and
  -- then the method prints as that form.
  pub as_str-parse_method :
      (name : Text) (m : Method)
      → parse_method api name ≡ ok m
      → (as_str m ≡ to_ascii_uppercase name)
        × (as_str m ≢ codes "CONNECT")
        × (as_str m ≢ codes "TRACE")
  unfolding parse_method
  as_str-parse_method name m e =
      let (known, not_connect, not_trace) =
        from_upper-eq-ok (from_bytes (to_ascii_uppercase name)) m e in
      let named = api.as_str-from_bytes (to_ascii_uppercase name) m known in
      (
        named,
        λ h. not_connect (cc (known, api.from_bytes-connect, ap from_bytes (sym named ∙ h))),
        λ h. not_trace (cc (known, api.from_bytes-trace, ap from_bytes (sym named ∙ h))),
      )

  -- A name is refused as not supported exactly when it reads CONNECT or TRACE in upper case.
  pub parse_method-not_supported_iff :
      (name : Text)
      → (parse_method api name ≡ err refusal)
        ↔ ((to_ascii_uppercase name ≡ codes "CONNECT") ⊎ (to_ascii_uppercase name ≡ codes "TRACE"))
  unfolding parse_method
  parse_method-not_supported_iff name = (
    λ e. elim (from_upper-eq-refused (from_bytes (to_ascii_uppercase name)) e) [
      | inl h ↦ inl (named connect _ h api.from_bytes-connect)
      | inr h ↦ inr (named trace _ h api.from_bytes-trace)
    ],
    λ h. elim h [
      | inl e ↦ rw (e, api.from_bytes-connect) (from_upper-refused connect (inl refl))
      | inr e ↦ rw (e, api.from_bytes-trace) (from_upper-refused trace (inr refl))
    ],
  )
    where
      named :
          (m : Method) (s : Text)
          → from_bytes (to_ascii_uppercase name) ≡ some m
          → from_bytes s ≡ some m
          → to_ascii_uppercase name ≡ s
      named m s h k = sym (api.as_str-from_bytes _ m h) ∙ api.as_str-from_bytes s m k

  -- Letter case makes no difference.
  pub parse_method-lowercase :
      (name : Text) → parse_method api (to_ascii_lowercase name) ≡ parse_method api name
  unfolding parse_method
  parse_method-lowercase name = ap (λ s. from_upper api (from_bytes s)) (uppercase-lowercase name)

  -- The method that a parse gives parses again, from its printed form, to itself.
  pub parse_method-as_str :
      (name : Text) (m : Method) → parse_method api name ≡ ok m → parse_method api (as_str m) ≡ ok m
  unfolding parse_method
  parse_method-as_str name m e =
      let (known, _, _) = from_upper-eq-ok (from_bytes (to_ascii_uppercase name)) m e in
      let named = api.as_str-from_bytes (to_ascii_uppercase name) m known in
      ap (λ s. from_upper api (from_bytes s))
        (ap to_ascii_uppercase named ∙ uppercase-uppercase name)
      ∙ e
