-- ===== src/Error/Message/Cap.antt =====
-- packages/core/src/error.rs, `cap_message_len`: where the cut falls.
use native.Mathlib.Nat.{le_trans}
use node_reqwest.Prelude.{
  ℕ, zero, suc, ◌+◌, ◌-◌, ◌/◌, ◌%◌, ◌≤◌, ◌<◌, ◌≡◌, refl, sym, ap, subst, ◌∙◌, Text, length, take,
  length-append, length-take_le, take-append, All, leb, Bool-cases, leb→le, ltb, if-intro, inl, inr,
  true, false, List, [], ◌∷◌, ◌++◌, arith,
}
use mathlib.Core.List.{append_assoc}
use node_reqwest.Error.Message.{
  is_lead, boundary_at, boundary_below, cap_message_len, max_message_len,
}
use node_reqwest.Error.Message.Utf8.{encode_char, encode, fit}

boundary_below-le : (s : Text) (n : ℕ) → boundary_below s n ≤ n
unfolding boundary_below
boundary_below-le s zero = omega arith
boundary_below-le s (suc n) = ground (arith, boundary_below-le s n)

-- The capped text is never longer than the cap.
pub length-cap_message_len : (raw : Text) → length (cap_message_len raw) ≤ max_message_len
unfolding cap_message_len
length-cap_message_len raw = elim (Bool-cases (leb (length raw) max_message_len)) [
  | inl short ↦ rw short (leb→le _ _ short)
  | inr long ↦ rw long (
      le_trans (length-take_le (boundary_below raw max_message_len) raw)
        (boundary_below-le raw 256))
]

-- One encoded character: a lead byte and its continuation bytes.
record IsEncoded (xs : Text) : Type 0 where
  lead : ℕ
  tail : Text
  parts : xs ≡ lead ∷ tail
  leads : is_lead lead ≡ true
  continues : All (λ b. is_lead b ≡ false) tail

is_lead-trail : (k : ℕ) → is_lead (0x80 + k % 0x40) ≡ false
is_lead-trail k = ground arith

encode_char-IsEncoded : (c : ℕ) → IsEncoded (encode_char c)
unfolding encode_char
encode_char-IsEncoded c =
    if-intro IsEncoded (ltb c 0x80)
      (λ h. record { lead = _; tail = _; parts = refl; leads = ground arith; continues = tt })
      λ _.
        if-intro IsEncoded (ltb c 0x800)
          (λ h. record {
            lead = _;
            tail = _;
            parts = refl;
            leads = ground arith;
            continues = (is_lead-trail c, tt);
          })
          λ _.
            if-intro IsEncoded (ltb c 0x1_0000)
              (λ h. record {
                lead = _;
                tail = _;
                parts = refl;
                leads = ground arith;
                continues = (is_lead-trail (c / 0x40), (is_lead-trail c, tt));
              })
              (λ h. record {
                lead = _;
                tail = _;
                parts = refl;
                leads = ground arith;
                continues =
                    (is_lead-trail (c / 0x1000), (is_lead-trail (c / 0x40), (is_lead-trail c, tt)));
              })

boundary_at-append :
    (xs ys : Text) (i n : ℕ) → n ≡ length xs + i → boundary_at (xs ++ ys) n ≡ boundary_at ys i
unfolding boundary_at
boundary_at-append [] ys i n e = ap (boundary_at ys) (omega arith)
boundary_at-append (x ∷ xs) ys i zero e = absurd (omega arith)
boundary_at-append (x ∷ xs) ys i (suc n) e = boundary_at-append xs ys i n (omega arith)

boundary_at-inside :
    (xs ys : Text) (i : ℕ)
    → All (λ b. is_lead b ≡ false) xs
    → i < length xs
    → boundary_at (xs ++ ys) i ≡ false
unfolding boundary_at
boundary_at-inside [] ys i h lt = absurd (omega arith)
boundary_at-inside (x ∷ xs) ys zero h lt = h.0
boundary_at-inside (x ∷ xs) ys (suc i) h lt = boundary_at-inside xs ys i h.1 (omega arith)

-- Inside the first character no index but 0 is a boundary.
boundary_below-inside :
    (b : ℕ) (xs ys : Text) (n : ℕ)
    → All (λ b. is_lead b ≡ false) xs
    → n ≤ length xs
    → boundary_below (b ∷ xs ++ ys) n ≡ 0
unfolding boundary_below boundary_at
boundary_below-inside b xs ys zero h le = refl
boundary_below-inside b xs ys (suc n) h le =
    rw (boundary_at-inside xs ys n h le) (boundary_below-inside b xs ys n h (omega arith))

-- Past the first character the search goes on in the rest.
boundary_below-append :
    (b : ℕ) (xs ys : Text) (m n : ℕ)
    → boundary_at ys 0 ≡ true
    → n ≡ length (b ∷ xs) + m
    → boundary_below (b ∷ xs ++ ys) n ≡ length (b ∷ xs) + boundary_below ys m
unfolding boundary_below
boundary_below-append b xs ys m zero start e = absurd (omega arith)
boundary_below-append b xs ys zero (suc n) start e =
    ground (arith, boundary_at-append (b ∷ xs) ys 0 (suc n))
boundary_below-append b xs ys (suc m) (suc n) start e =
    ground
      (arith, boundary_at-append (b ∷ xs) ys (suc m) (suc n), boundary_below-append b xs ys m n)

encode-starts : (cs : List ℕ) → boundary_at (encode cs) 0 ≡ true
unfolding encode boundary_at
encode-starts [] = refl
encode-starts (c ∷ cs) = ground (arith, encode_char-IsEncoded c)

boundary_below-char :
    (c : ℕ) (ys : Text) (m n : ℕ)
    → boundary_at ys 0 ≡ true
    → n ≡ length (encode_char c) + m
    → boundary_below (encode_char c ++ ys) n ≡ length (encode_char c) + boundary_below ys m
boundary_below-char c ys m n start e =
    let r = encode_char-IsEncoded c in
    rw r.parts
      (boundary_below-append r.lead r.tail ys m n start (e ∙ ap (λ z. length z + m) r.parts))

boundary_below-in_char :
    (c : ℕ) (ys : Text) (n : ℕ)
    → n < length (encode_char c)
    → boundary_below (encode_char c ++ ys) n ≡ 0
boundary_below-in_char c ys n lt =
    let r = encode_char-IsEncoded c in
    rw r.parts
      (boundary_below-inside r.lead r.tail ys n r.continues (omega (arith, ap length r.parts)))

-- The search for a boundary stops at the end of the last character that fits.
boundary_below-encode :
    (cs : List ℕ) (n : ℕ)
    → n ≤ length (encode cs)
    → boundary_below (encode cs) n ≡ length (encode (fit n cs))
unfolding encode fit
boundary_below-encode [] zero le = unfold boundary_below in refl
boundary_below-encode [] (suc n) le = absurd (omega arith)
boundary_below-encode (c ∷ cs) n le =
    let m = n - length (encode_char c) in
    let cut = length-append (encode_char c) (encode cs) in
    if-intro (λ r. boundary_below (encode_char c ++ encode cs) n ≡ length (encode r))
      (leb (length (encode_char c)) n)
      (λ h. omega (
        arith,
        leb→le _ _ h,
        length-append (encode_char c) (encode (fit m cs)),
        boundary_below-char c (encode cs) m n (encode-starts cs) (omega (arith, leb→le _ _ h)),
        boundary_below-encode cs m (omega (arith, leb→le _ _ h)),
      ))
      (λ h. boundary_below-in_char c (encode cs) n (ground arith))

-- What fits is a prefix of the text.
encode-fit_prefix : (cs : List ℕ) (n : ℕ) → (r : Text) × (encode cs ≡ encode (fit n cs) ++ r)
unfolding encode fit
encode-fit_prefix [] n = ([], refl)
encode-fit_prefix (c ∷ cs) n =
    let (r, e) = encode-fit_prefix cs (n - length (encode_char c)) in
    if-intro (λ k. (r : Text) × (encode_char c ++ encode cs ≡ encode k ++ r))
      (leb (length (encode_char c)) n) (λ _. (r, rw e (sym (append_assoc (encode_char c) _ r))))
      (λ _. (encode_char c ++ encode cs, refl))

-- A text within the bound fits whole.
fit_all : (cs : List ℕ) (n : ℕ) → length (encode cs) ≤ n → fit n cs ≡ cs
unfolding encode fit
fit_all [] n le = refl
fit_all (c ∷ cs) n le =
    let cut = length-append (encode_char c) (encode cs) in
    if-intro (λ k. k ≡ c ∷ cs) (leb (length (encode_char c)) n)
      (λ _. ap (◌∷◌ c) (fit_all cs (n - length (encode_char c)) (omega arith)))
      (λ h. absurd (ground arith))

-- For every sequence of code points, the cap keeps exactly the longest run of whole characters that
-- takes at most 256 bytes: it never cuts inside a character and never drops one that fits.
pub cap_message_len-encode :
    (cs : List ℕ) → cap_message_len (encode cs) ≡ encode (fit max_message_len cs)
unfolding cap_message_len
cap_message_len-encode cs =
    if-intro (λ r. r ≡ encode (fit 256 cs)) (leb (length (encode cs)) 256)
      (λ h. ap encode (sym (fit_all cs 256 (leb→le _ _ h))))
      λ h.
        let (r, e) = encode-fit_prefix cs 256 in
        rw (boundary_below-encode cs 256 (ground arith)) (
          subst (λ s. take (length (encode (fit 256 cs))) s ≡ encode (fit 256 cs)) (sym e)
            (take-append (encode (fit 256 cs)) r _ refl))
