-- ===== src/Error/Message/Utf8.antt =====
-- UTF-8 as the standard library defines it: what a Rust `str` holds.
use node_reqwest.Prelude.{
  ℕ, ◌+◌, ◌-◌, ◌/◌, ◌%◌, Text, length, leb, ltb, if◌then◌else◌, List, [], ◌∷◌, ◌++◌,
}

unfoldable pub encode_char : ℕ → Text
encode_char c =
    if ltb c 0x80
    then c ∷ []
    else if ltb c 0x800
    then (0xC0 + c / 0x40) ∷ (0x80 + c % 0x40) ∷ []
    else if ltb c 0x1_0000
    then (0xE0 + c / 0x1000) ∷ (0x80 + c / 0x40 % 0x40) ∷ (0x80 + c % 0x40) ∷ []
    else (0xF0 + c / 0x4_0000)
      ∷ (0x80 + c / 0x1000 % 0x40)
      ∷ (0x80 + c / 0x40 % 0x40)
      ∷ (0x80 + c % 0x40)
      ∷ []

unfoldable pub encode : List ℕ → Text
encode [] = []
encode (c ∷ cs) = encode_char c ++ encode cs

-- The longest run of whole characters from the start that takes at most `n` bytes.
unfoldable pub fit : ℕ → List ℕ → List ℕ
fit n [] = []
fit n (c ∷ cs) =
    let rest = fit (n - length (encode_char c)) cs in
    if leb (length (encode_char c)) n then c ∷ rest else []
