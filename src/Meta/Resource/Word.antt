-- ===== src/Meta/Resource/Word.antt =====
-- packages/meta/src/lib.rs, `cdylib_win_rc`: the version word and the version text.
use Prim.Native.Nat.{bit_or}
use node_reqwest.Prelude.{ℕ, ◌+◌, ◌*◌, ◌/◌, ◌%◌, ◌^◌, ◌<◌, ◌≡◌, ap, ◌∙◌, arith}
use node_reqwest.Prelude.Bits.{bit_or-shifted}
use node_reqwest.Meta.Version.{Version}
use node_reqwest.Meta.Resource.{version_hex}

-- A field of the word fits 16 bits.
abbrev pub Fits : Version → Type 0
Fits v = (v.major < 2 ^ 16) × (v.minor < 2 ^ 16) × (v.patch < 2 ^ 16)

version_hex-sum :
    (v : Version) → Fits v → version_hex v ≡ v.major * 2 ^ 48 + v.minor * 2 ^ 32 + v.patch * 2 ^ 16
unfolding version_hex
version_hex-sum v (a, b, c) =
    rw (high, middle, low, bit_or-shifted 48 v.major (v.minor * 2 ^ 32) (omega arith))
      (ap (λ h. bit_or h (v.patch * 2 ^ 16)) joined
        ∙ bit_or-shifted 32 (v.major * 2 ^ 16 + v.minor) (v.patch * 2 ^ 16) (omega arith)
        ∙ omega arith)
  where
    high : v.major * 2 ^ 48 % 2 ^ 64 ≡ v.major * 2 ^ 48
    high = omega arith

    middle : v.minor * 2 ^ 32 % 2 ^ 64 ≡ v.minor * 2 ^ 32
    middle = omega arith

    low : v.patch * 2 ^ 16 % 2 ^ 64 ≡ v.patch * 2 ^ 16
    low = omega arith

    joined : v.major * 2 ^ 48 + v.minor * 2 ^ 32 ≡ (v.major * 2 ^ 16 + v.minor) * 2 ^ 32
    joined = omega arith

-- The version that a word of the resource stands for, as Windows reads it: four fields of 16 bits,
-- of which the last is not used.
abbrev pub decoded : ℕ → Version
decoded w = record { major = w / 2 ^ 48; minor = w / 2 ^ 32 % 2 ^ 16; patch = w / 2 ^ 16 % 2 ^ 16 }

pub decoded-version_hex :
    (v : Version) → Fits v → (decoded (version_hex v) ≡ v) × (version_hex v % 2 ^ 16 ≡ 0)
decoded-version_hex v (a, b, c) =
    rw (version_hex-sum v (a, b, c)) (fields (omega arith) (omega arith) (omega arith), omega arith)
  where
    fields :
        {x y z : ℕ}
        → x ≡ v.major
        → y ≡ v.minor
        → z ≡ v.patch
        → record { major = x; minor = y; patch = z } ≡ v
    fields e f g = cc
