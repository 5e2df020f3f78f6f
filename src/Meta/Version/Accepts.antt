-- ===== src/Meta/Version/Accepts.antt =====
-- packages/meta/src/lib.rs, `Version::parse`: the texts that it accepts, and no others.
use node_reqwest.Meta.Version.Dotted.{
  Allowed, Allowed-value_from, mod-small, value_from-mod, wrapped, parse-dotted,
}
use node_reqwest.Prelude.{
  ℕ, ◌+◌, ◌-◌, ◌*◌, ◌%◌, Bool, true, false, ◌≤◌, ◌<◌, ◌≡◌, ◌↔◌, ◌≢◌, ◌⊎◌, inl, inr, ap, sym, subst,
  ◌∙◌, Text, All, IsDigit, value_from, length, some, [], ◌∷◌, ◌++◌, arith,
}
use node_reqwest.Meta.Version.{
  Version, done, u64_max, u64_modulus, get_segment, set_segment, finish, parse_from, parse,
}

-- What one byte of an accepted text does.
parse_from-cons :
    (c : Bool) (x : ℕ) (xs : Text) (segment : ℕ) (v w : Version)
    → segment < 3
    → parse_from c (x ∷ xs) segment v ≡ done (some w)
    → ((x ≡ b'.') × (parse_from c xs (segment + 1) v ≡ done (some w)))
      ⊎ (IsDigit x
          × Allowed c (get_segment segment v * 10 + (x - b'0'))
          × (parse_from c xs segment
                (set_segment segment ((get_segment segment v * 10 + (x - b'0')) % u64_modulus) v)
              ≡ done (some w)))
unfolding parse_from
parse_from-cons true x xs segment v w lt e = ground arith
parse_from-cons false x xs segment v w lt e = ground arith

parse_from-third : (c : Bool) (xs : Text) (v w : Version) → parse_from c xs 3 v ≢ done (some w)
unfolding parse_from finish
parse_from-third c [] v w e = ground arith
parse_from-third c (x ∷ xs) v w e = ground arith

-- From the last segment on, a text is accepted only if it is made of digits.
accepted_patch :
    (c : Bool) (xs : Text) (v w : Version)
    → v.patch ≤ u64_max
    → parse_from c xs 2 v ≡ done (some w)
    → All IsDigit xs
      × Allowed c (value_from v.patch xs)
      × (w ≡ record v { patch = value_from v.patch xs % u64_modulus })
accepted_patch c [] v w fits e =
    (tt, inr fits, unfold parse_from finish in ground (arith, mod-small v.patch fits))
accepted_patch c (x ∷ xs) v w fits e = elim (parse_from-cons c x xs 2 v w (omega arith) e) [
  | inl (_, more) ↦ absurd (parse_from-third c xs v w more)
  | inr (digit, small, more) ↦
      let n = v.patch * 10 + (x - b'0') in
      let (digits, low, same) =
        accepted_patch c xs (record v { patch = n % u64_modulus }) w (omega arith) more in
      (
        (digit, digits),
        Allowed-value_from c n xs small low,
        same ∙ ap (λ k. record v { patch = k }) (value_from-mod n xs),
      )
]

record AcceptedMinor (c : Bool) (xs : Text) (v w : Version) : Type 0 where
  minor : Text
  patch : Text
  split : xs ≡ minor ++ (b'.' ∷ patch)
  minor_digits : All IsDigit minor
  patch_digits : All IsDigit patch
  minor_fits : Allowed c (value_from v.minor minor)
  patch_fits : Allowed c (value_from v.patch patch)
  result : w ≡ record v {
    minor = value_from v.minor minor % u64_modulus;
    patch = value_from v.patch patch % u64_modulus;
  }

accepted_minor :
    (c : Bool) (xs : Text) (v w : Version)
    → v.minor ≤ u64_max
    → v.patch ≤ u64_max
    → parse_from c xs 1 v ≡ done (some w)
    → AcceptedMinor c xs v w
accepted_minor c [] v w fits fits' e = unfold parse_from finish in cc
accepted_minor c (x ∷ xs) v w fits fits' e = elim (parse_from-cons c x xs 1 v w (omega arith) e) [
  | inl (dot, more) ↦
      let (digits, low, same) = accepted_patch c xs v w fits' more in
      record {
        minor = [];
        patch = xs;
        split = ap (λ y. y ∷ xs) dot;
        minor_digits = tt;
        patch_digits = digits;
        minor_fits = inr fits;
        patch_fits = low;
        result =
            same
            ∙ ap (λ k. record v { minor = k; patch = value_from v.patch xs % u64_modulus })
                (sym (mod-small v.minor fits));
      }
  | inr (digit, small, more) ↦
      let n = v.minor * 10 + (x - b'0') in
      let r =
        accepted_minor c xs (record v { minor = n % u64_modulus }) w (omega arith) fits' more in
      record {
        minor = x ∷ r.minor;
        patch = r.patch;
        split = ap (◌∷◌ x) r.split;
        minor_digits = (digit, r.minor_digits);
        patch_digits = r.patch_digits;
        minor_fits = Allowed-value_from c n r.minor small r.minor_fits;
        patch_fits = r.patch_fits;
        result =
            r.result
            ∙ ap (λ k. record v { minor = k; patch = value_from v.patch r.patch % u64_modulus })
                (value_from-mod n r.minor);
      }
]

-- The runs of digits that a version is read from, behind `base` in the first of them.
pub record AcceptedMajor (c : Bool) (xs : Text) (base : ℕ) (w : Version) : Type 0 where
  pub major : Text
  pub minor : Text
  pub patch : Text
  pub split : xs ≡ major ++ (b'.' ∷ (minor ++ (b'.' ∷ patch)))
  pub major_digits : All IsDigit major
  pub minor_digits : All IsDigit minor
  pub patch_digits : All IsDigit patch
  pub major_fits : Allowed c (value_from base major)
  pub minor_fits : Allowed c (value_from 0 minor)
  pub patch_fits : Allowed c (value_from 0 patch)
  pub result : w ≡ record {
    major = value_from base major % u64_modulus;
    minor = wrapped minor;
    patch = wrapped patch;
  }

accepted_major :
    (c : Bool) (xs : Text) (base : ℕ) (w : Version)
    → base ≤ u64_max
    → parse_from c xs 0 (record { major = base; minor = 0; patch = 0 }) ≡ done (some w)
    → AcceptedMajor c xs base w
accepted_major c [] base w fits e = unfold parse_from finish in cc
accepted_major c (x ∷ xs) base w fits e =
    elim (parse_from-cons c x xs 0 (record { major = base; minor = 0; patch = 0 }) w (omega arith)
      e) [
        | inl (dot, more) ↦
            let r =
              accepted_minor c xs (record { major = base; minor = 0; patch = 0 }) w (omega arith)
                (omega arith) more in
            record {
              major = [];
              minor = r.minor;
              patch = r.patch;
              split = λ i. dot i ∷ r.split i;
              major_digits = tt;
              minor_digits = r.minor_digits;
              patch_digits = r.patch_digits;
              major_fits = inr fits;
              minor_fits = r.minor_fits;
              patch_fits = r.patch_fits;
              result =
                  r.result
                  ∙ ap (λ k. record { major = k; minor = wrapped r.minor; patch = wrapped r.patch })
                      (sym (mod-small base fits));
            }
        | inr (digit, small, more) ↦
            let n = base * 10 + (x - b'0') in
            let r = accepted_major c xs (n % u64_modulus) w (omega arith) more in
            record {
              major = x ∷ r.major;
              minor = r.minor;
              patch = r.patch;
              split = ap (◌∷◌ x) r.split;
              major_digits = (digit, r.major_digits);
              minor_digits = r.minor_digits;
              patch_digits = r.patch_digits;
              major_fits = Allowed-value_from c n r.major small r.major_fits;
              minor_fits = r.minor_fits;
              patch_fits = r.patch_fits;
              result =
                  r.result
                  ∙ ap (λ k. record { major = k; minor = wrapped r.minor; patch = wrapped r.patch })
                      (value_from-mod n r.major);
            }
      ]

parse-cons_iff :
    (c : Bool) (x : ℕ) (xs : Text) (w : Version)
    → (parse c (x ∷ xs) ≡ done (some w)) ↔ (
        (6 ≤ length (x ∷ xs))
        × (x ≡ b'v')
        × (parse_from c xs 0 (record { major = 0; minor = 0; patch = 0 }) ≡ done (some w)))
unfolding parse
parse-cons_iff c x xs w = (λ e. ground arith, λ h. ground arith)

-- A text is accepted as a version exactly when it has at least six bytes and is a `v` with three
-- runs of digits behind it, dots between them, and either overflow is not checked or each run
-- spells a 64-bit number; the numbers of the version are those that the runs spell, modulo 2^64. A
-- run may be empty, and then stands for 0.
pub parse_iff :
    (overflow_checks : Bool) (s : Text) (w : Version)
    → (parse overflow_checks s ≡ done (some w))
      ↔ ((6 ≤ length s) × ((xs : Text) × (s ≡ b'v' ∷ xs) × AcceptedMajor overflow_checks xs 0 w))
unfolding parse
parse_iff c [] w = (λ e. cc, λ h. absurd (omega arith))
parse_iff c (x ∷ xs) w = (
  λ e.
      let (long, v, more) = (parse-cons_iff c x xs w).0 e in
      (long, (xs, ap (λ y. y ∷ xs) v, accepted_major c xs 0 w (omega arith) more)),
  λ (long, (ys, e, r)).
      subst (λ s. parse c s ≡ done (some w)) (sym (e ∙ ap (◌∷◌ b'v') r.split))
        (parse-dotted c r.major r.minor r.patch r.major_digits r.minor_digits r.patch_digits
            (subst (λ s. 6 ≤ length s) (e ∙ ap (◌∷◌ b'v') r.split) long) r.major_fits r.minor_fits
            r.patch_fits
          ∙ ap (λ v. done (some v)) (sym r.result)),
)
