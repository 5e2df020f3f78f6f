-- ===== src/Node/FfiUtil/Accepts.antt =====
-- packages/node/src/ffi_util.rs: the numbers that are taken as a timeout and as a size.
use node_reqwest.Prelude.{
  ℕ, ◌^◌, ◌≤◌, ◌<◌, ◌≡◌, ◌↔◌, ◌⊎◌, inl, inr, refl, sym, ap, ◌∙◌, Text, ltb, ltb→lt, Bool-cases,
  Bool, true, false, Option, none, some, ◌||◌, none, some, arith,
}
use node_reqwest.Prelude.Outcome.{Result, ok, err, ◌>>=◌, Holds, Holds->>=, Holds-if}
use node_reqwest.Node.Js.{
  Js, Number, nan, infinite, finite, is_nan, is_zero, below_zero, is_nullish,
}
use node_reqwest.Node.FfiUtil.{js_number_to_u64, size_of, timeout_of, opt_timeout_ms, opt_size}

-- The numbers from 0 on, -0.0 among them, whose whole part is `value`, below 2^64.
abbrev pub Reads : Number → ℕ → Type 0
Reads n value =
    (negative : Bool) × (fractional : Bool) × (n ≡ finite negative value fractional)
    × (below_zero n ≡ false)
    × (value < 2 ^ 64)

module _ (js : Js) where
  open js.numbers use {cast, cast-inside, cast-above, cast-infinite}

  from_zero :
      (negative : Bool) (whole : ℕ) (fractional : Bool)
      → below_zero (finite negative whole fractional) ≡ false
      → (negative ≡ false) ⊎ (whole ≡ 0)
  from_zero false whole fractional h = inl refl
  from_zero true whole fractional h = inr (ground arith)

  -- What is not below zero is cast to its whole part, or refused from 2^w on.
  pub cast-from_zero :
      (w : ℕ) (negative : Bool) (whole : ℕ) (fractional : Bool)
      → below_zero (finite negative whole fractional) ≡ false
      → (cast w (finite negative whole fractional) ≡ some whole) × (whole < 2 ^ w)
        ⊎ (cast w (finite negative whole fractional) ≡ none) × (2 ^ w ≤ whole)
  cast-from_zero w negative whole fractional h = elim (Bool-cases (ltb whole (2 ^ w))) [
    | inl lt ↦
        let below = ltb→lt whole (2 ^ w) lt in
        inl (
          cast-inside w negative whole fractional (from_zero negative whole fractional h) below,
          below,
        )
    | inr ge ↦
        let above : 2 ^ w ≤ whole = ground (arith, ge) in
        inr (cast-above w negative whole fractional above, above)
  ]

  to_u64_iff :
      (n : Number) (key : Text) (value : ℕ)
      → below_zero n ≡ false
      → (js_number_to_u64 js n key ≡ ok value) ↔ Reads n value
  unfolding js_number_to_u64
  to_u64_iff nan key value h = (λ e. cc (js.numbers.cast-nan 64), λ (_, _, e, _, _). cc)
  to_u64_iff (infinite negative) key value h =
      (λ e. cc (cast-infinite 64 negative), λ (_, _, e, _, _). cc)
  to_u64_iff (finite negative whole fractional) key value h =
      elim (cast-from_zero 64 negative whole fractional h) [
        | inl (e, lt) ↦
            rw (js_number_to_u64, e)
              (λ f. (negative, fractional, cc, h, ground (arith, lt)), λ (_, _, f, _, _). cc)
        | inr (e, ge) ↦
            rw (js_number_to_u64, e) ((λ f. cc), λ (_, _, f, _, lt). ground (arith, ge, lt, f))
      ]

  some_iff :
      (r : Result js.Thrown ℕ) (value : ℕ)
      → ((r >>= λ found. ok (some found)) ≡ ok (some value)) ↔ (r ≡ ok value)
  some_iff (ok found) value = ((λ e. cc), (λ e. cc))
  some_iff (err thrown) value = ((λ e. cc), (λ e. cc))

  taken_iff :
      (n : Number) (key : Text) (value : ℕ)
      → below_zero n ≡ false
      → ((js_number_to_u64 js n key >>= λ found. ok (some found)) ≡ ok (some value)) ↔ Reads n value
  taken_iff n key value h =
      let (there, back) = some_iff (js_number_to_u64 js n key) value in
      let (down, up) = to_u64_iff n key value h in (λ e. down (there e), λ r. back (up r))

  guard-Reads : (n : Number) (value : ℕ) → Reads n value → (is_nan n || below_zero n) ≡ false
  guard-Reads n value (negative, fractional, e, h, _) = rw (e, ap below_zero (sym e) ∙ h) refl

  size_of_iff :
      (n : Number) (key : Text) (value : ℕ) → (size_of js n key ≡ ok (some value)) ↔ Reads n value
  unfolding size_of
  size_of_iff n key value = elim (Bool-cases (is_nan n || below_zero n)) [
    | inl bad ↦
        rw (size_of, bad) (λ e. cc, λ r. absurd (ground (arith, bad, guard-Reads n value r)))
    | inr good ↦ rw (size_of, good) (taken_iff n key value (ground (arith, good)))
  ]

  timeout_of_iff :
      (n : Number) (key : Text) (value : ℕ)
      → (timeout_of js n key ≡ ok (some value)) ↔ (Reads n value × (is_zero n ≡ false))
  unfolding timeout_of
  timeout_of_iff n key value = elim (Bool-cases (is_nan n || below_zero n)) [
    | inl bad ↦
        rw (timeout_of, bad)
          (λ e. cc, λ (r, _). absurd (ground (arith, bad, guard-Reads n value r)))
    | inr good ↦ elim (Bool-cases (is_zero n)) [
      | inl zeroed ↦ rw (timeout_of, good, zeroed) (λ e. cc, λ (_, h). cc)
      | inr present ↦
          let (down, up) = taken_iff n key value (ground (arith, good)) in
          rw (timeout_of, good, present) (λ e. (down e, refl), λ (r, _). up r)
    ]
  ]

  -- A size is taken exactly when it is a number from 0 on, the whole part of which is then kept, and
  -- below 2^64.
  pub opt_size_iff :
      (obj v : js.Value) (key : Text) (n : Number) (value : ℕ)
      → js.get obj key ≡ ok v
      → is_nullish js v ≡ false
      → js.as_number v ≡ ok n
      → (opt_size js obj key ≡ ok (some value)) ↔ Reads n value
  unfolding opt_size
  opt_size_iff obj v key n value got set number =
      rw (opt_size, got, set, number) (size_of_iff n key value)

  -- A timeout is taken exactly when it is a number above 0, a fraction of a millisecond among them,
  -- and below 2^64; the whole part is kept, so that a value below 1 gives a timeout of 0.
  pub opt_timeout_ms_iff :
      (obj v : js.Value) (key : Text) (n : Number) (value : ℕ)
      → js.get obj key ≡ ok v
      → is_nullish js v ≡ false
      → js.as_number v ≡ ok n
      → (opt_timeout_ms js obj key ≡ ok (some value)) ↔ (Reads n value × (is_zero n ≡ false))
  unfolding opt_timeout_ms
  opt_timeout_ms_iff obj v key n value got set number =
      rw (opt_timeout_ms, got, set, number) (timeout_of_iff n key value)

  abbrev pub Below : Option ℕ → Type 0
  Below none = Unit
  Below (some value) = value < 2 ^ 64

  timeout_of-Below : (n : Number) (key : Text) → Holds Below (timeout_of js n key)
  timeout_of-Below n key = go (timeout_of js n key) refl
    where
      go : (r : Result js.Thrown (Option ℕ)) → timeout_of js n key ≡ r → Holds Below r
      go (ok none) e = tt
      go (ok (some value)) e = let ((_, _, _, _, lt), _) = (timeout_of_iff n key value).0 e in lt
      go (err _) e = tt

  -- No timeout reaches 2^64 milliseconds.
  pub opt_timeout_ms-Below : (obj : js.Value) (key : Text) → Holds Below (opt_timeout_ms js obj key)
  unfolding opt_timeout_ms
  opt_timeout_ms-Below obj key = Holds->>= Below (js.get obj key) _ λ v _.
      Holds-if Below (is_nullish js v) _ _ (λ _. tt)
        (λ _. Holds->>= Below (js.as_number v) _ λ n _. timeout_of-Below n key)

  size_of-Below : (n : Number) (key : Text) → Holds Below (size_of js n key)
  size_of-Below n key = go (size_of js n key) refl
    where
      go : (r : Result js.Thrown (Option ℕ)) → size_of js n key ≡ r → Holds Below r
      go (ok none) e = tt
      go (ok (some value)) e = let (_, _, _, _, lt) = (size_of_iff n key value).0 e in lt
      go (err _) e = tt

  pub opt_size-Below : (obj : js.Value) (key : Text) → Holds Below (opt_size js obj key)
  unfolding opt_size
  opt_size-Below obj key = Holds->>= Below (js.get obj key) _ λ v _.
      Holds-if Below (is_nullish js v) _ _ (λ _. tt)
        (λ _. Holds->>= Below (js.as_number v) _ λ n _. size_of-Below n key)
