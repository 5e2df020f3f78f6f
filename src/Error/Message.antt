-- ===== src/Error/Message.antt =====
-- packages/core/src/error.rs: the byte cap on messages and the text of an error's source chain.
pub mod Utf8
pub mod Cap
pub mod Chain
use node_reqwest.Prelude.{
  ℕ, zero, suc, Text, codes, is_empty, length, take, leb, ltb, if◌then◌else◌, Bool, true, false,
  ◌||◌, List, [], ◌∷◌, ◌++◌,
}

abbrev pub max_message_len : ℕ
max_message_len = 256

-- The test of `str::is_char_boundary` on one byte: not a continuation byte, 0x80 to 0xBF.
abbrev pub is_lead : ℕ → Bool
is_lead b = ltb b 0x80 || leb 0xC0 b

-- `str::is_char_boundary` at an index past the start: the end is a boundary, beyond it none is.
pub boundary_at : Text → ℕ → Bool
boundary_at [] zero = true
boundary_at [] (suc i) = false
boundary_at (b ∷ s) zero = is_lead b
boundary_at (b ∷ s) (suc i) = boundary_at s i

pub is_char_boundary : Text → ℕ → Bool
unfolding boundary_at
is_char_boundary s zero = true
is_char_boundary s (suc i) = boundary_at s (suc i)

-- `while !raw.is_char_boundary(end) { end -= 1; }`, which stops at 0 at the latest.
pub boundary_below : Text → ℕ → ℕ
unfolding is_char_boundary
boundary_below s zero = zero
boundary_below s (suc end) =
    let rest = boundary_below s end in if is_char_boundary s (suc end) then suc end else rest

pub cap_message_len : Text → Text
cap_message_len raw =
    if leb (length raw) max_message_len then raw else take (boundary_below raw max_message_len) raw

-- The `while let` loop over the sources' texts, `out` being what was written so far.
pub chain_from : Text → List Text → Text
chain_from out [] = out
chain_from out (e ∷ sources) =
    chain_from ((if is_empty out then out else out ++ codes "; ") ++ e) sources

-- `error_chain` of an error whose `source()` chain displays as `sources`, nearest first.
pub error_chain : List Text → Text
error_chain sources =
    let out = chain_from [] sources in if is_empty out then codes "<no source>" else out
