-- ===== src/Meta/Version/Dotted.antt =====
-- packages/meta/src/lib.rs, `Version::parse`: it accepts three runs of digits.
use mathlib.Core.List.{append-nil}
use node_reqwest.Prelude.{
  ℕ, zero, suc, ◌+◌, ◌-◌, ◌*◌, ◌%◌, ◌≤◌, ◌<◌, ◌≡◌, ◌⊎◌, inl, inr, refl, ap, sym, subst, ◌∙◌, Bool,
  true, false, Text, All, IsDigit, value_from, le-value_from, length, some, [], ◌∷◌, ◌++◌, arith,
}
use node_reqwest.Meta.Version.{
  Version, done, u64_max, u64_modulus, get_segment, set_segment, finish, parse_from, parse,
}

-- A number that the arithmetic of the profile takes.
abbrev pub Allowed : (overflow_checks : Bool) → ℕ → Type 0
Allowed overflow_checks n = (overflow_checks ≡ false) ⊎ (n ≤ u64_max)

pub mod-small : (n : ℕ) → n ≤ u64_max → n % u64_modulus ≡ n
mod-small n h = omega (arith, h)

value_from-congruent :
    (a b : ℕ) (s : Text)
    → a % u64_modulus ≡ b % u64_modulus
    → value_from a s % u64_modulus ≡ value_from b s % u64_modulus
value_from-congruent a b [] h = h
value_from-congruent a b (d ∷ s) h =
    value_from-congruent (a * 10 + (d - b'0')) (b * 10 + (d - b'0')) s (omega (arith, h))

-- It does not matter for the value whether a number wraps before the digits behind it are read.
pub value_from-mod :
    (n : ℕ) (s : Text) → value_from (n % u64_modulus) s % u64_modulus ≡ value_from n s % u64_modulus
value_from-mod n s = value_from-congruent (n % u64_modulus) n s (omega arith)

pub Allowed-value_from :
    (c : Bool) (n : ℕ) (s : Text)
    → Allowed c n
    → Allowed c (value_from (n % u64_modulus) s)
    → Allowed c (value_from n s)
Allowed-value_from c n s (inl off) h = inl off
Allowed-value_from c n s (inr le) h = subst (λ k. Allowed c (value_from k s)) (mod-small n le) h

Allowed-wrapped :
    (c : Bool) (n : ℕ) (s : Text)
    → Allowed c (value_from n s)
    → Allowed c n × Allowed c (value_from (n % u64_modulus) s)
Allowed-wrapped c n s (inl off) = (inl off, inl off)
Allowed-wrapped c n s (inr le) =
    let small : n ≤ u64_max = omega (arith, le, le-value_from n s) in
    (inr small, inr (subst (λ k. value_from k s ≤ u64_max) (sym (mod-small n small)) le))

get_segment-set : (segment n : ℕ) (v : Version) → get_segment segment (set_segment segment n v) ≡ n
get_segment-set zero n v = refl
get_segment-set (suc zero) n v = refl
get_segment-set (suc (suc _)) n v = refl

set_segment-set :
    (segment n k : ℕ) (v : Version)
    → set_segment segment n (set_segment segment k v) ≡ set_segment segment n v
set_segment-set zero n k v = refl
set_segment-set (suc zero) n k v = refl
set_segment-set (suc (suc _)) n k v = refl

set_segment-get : (segment : ℕ) (v : Version) → set_segment segment (get_segment segment v) v ≡ v
set_segment-get zero v = refl
set_segment-get (suc zero) v = refl
set_segment-get (suc (suc _)) v = refl

parse_from-digit :
    (c : Bool) (d : ℕ) (rest : Text) (segment : ℕ) (v : Version)
    → IsDigit d
    → segment < 3
    → Allowed c (get_segment segment v * 10 + (d - b'0'))
    → parse_from c (d ∷ rest) segment v
      ≡ parse_from c rest segment
          (set_segment segment ((get_segment segment v * 10 + (d - b'0')) % u64_modulus) v)
unfolding parse_from
parse_from-digit true d rest segment v h lt (inr le) = ground arith
parse_from-digit true d rest segment v h lt (inl off) = cc
parse_from-digit false d rest segment v h lt allowed = ground arith

-- A run of digits is read into the current segment.
pub parse_from-digits :
    (c : Bool) (ds rest : Text) (segment : ℕ) (v : Version)
    → All IsDigit ds
    → segment < 3
    → get_segment segment v ≤ u64_max
    → Allowed c (value_from (get_segment segment v) ds)
    → parse_from c (ds ++ rest) segment v
      ≡ parse_from c rest segment
          (set_segment segment (value_from (get_segment segment v) ds % u64_modulus) v)
parse_from-digits c [] rest segment v h lt small allowed = ap (parse_from c rest segment) (
    sym (
      ap (λ n. set_segment segment n v) (mod-small (get_segment segment v) small)
      ∙ set_segment-get segment v))
parse_from-digits c (d ∷ ds) rest segment v (digit, h) lt small allowed =
    let n = get_segment segment v * 10 + (d - b'0') in
    let u = set_segment segment (n % u64_modulus) v in
    let got = get_segment-set segment (n % u64_modulus) v in
    let (one, more) = Allowed-wrapped c n ds allowed in
    parse_from-digit c d (ds ++ rest) segment v digit lt one
    ∙ parse_from-digits c ds rest segment u h lt (omega (arith, got))
        (subst (λ k. Allowed c (value_from k ds)) (sym got) more)
    ∙ ap (parse_from c rest segment) (
        set_segment-set segment (value_from (get_segment segment u) ds % u64_modulus)
          (n % u64_modulus) v
        ∙ ap (λ k. set_segment segment k v)
            (ap (λ k. value_from k ds % u64_modulus) got ∙ value_from-mod n ds))

-- A dot moves on to the next segment.
pub parse_from-dot :
    (c : Bool) (rest : Text) (segment : ℕ) (v : Version)
    → segment < 3
    → parse_from c (b'.' ∷ rest) segment v ≡ parse_from c rest (segment + 1) v
unfolding parse_from
parse_from-dot c rest segment v lt = ground arith

-- Three runs of digits behind a `v`, with dots between them.
abbrev pub dotted : Text → Text → Text → Text
dotted a b c = b'v' ∷ (a ++ (b'.' ∷ (b ++ (b'.' ∷ c))))

abbrev pub wrapped : Text → ℕ
wrapped s = value_from 0 s % u64_modulus

pub parse-dotted :
    (checks : Bool) (a b c : Text)
    → All IsDigit a
    → All IsDigit b
    → All IsDigit c
    → 6 ≤ length (dotted a b c)
    → Allowed checks (value_from 0 a)
    → Allowed checks (value_from 0 b)
    → Allowed checks (value_from 0 c)
    → parse checks (dotted a b c)
      ≡ done (some (record { major = wrapped a; minor = wrapped b; patch = wrapped c }))
unfolding parse finish
parse-dotted checks a b c da db dc long fa fb fc =
    let v0 : Version = record { major = 0; minor = 0; patch = 0 } in
    let v1 : Version = record { major = wrapped a; minor = 0; patch = 0 } in
    let v2 : Version = record { major = wrapped a; minor = wrapped b; patch = 0 } in
    let read =
      parse_from-digits checks a (b'.' ∷ (b ++ (b'.' ∷ c))) 0 v0 da (omega arith) (omega arith) fa
      ∙ parse_from-dot checks (b ++ (b'.' ∷ c)) 0 v1 (omega arith)
      ∙ parse_from-digits checks b (b'.' ∷ c) 1 v1 db (omega arith) (omega arith) fb
      ∙ parse_from-dot checks c 1 v2 (omega arith)
      ∙ ap (λ s. parse_from checks s 2 v2) (sym (append-nil c))
      ∙ parse_from-digits checks c [] 2 v2 dc (omega arith) (omega arith) fc in
    ground (arith, read)
