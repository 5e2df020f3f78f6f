-- ===== src/Error/Message/Chain.antt =====
-- packages/core/src/error.rs, `error_chain`: what the flattened chain reads.
use mathlib.Core.List.{append_assoc, append-nil}
use node_reqwest.Prelude.{ℕ, ◌≡◌, refl, sym, ap, ◌∙◌, Text, codes, List, [], ◌∷◌, ◌++◌}
use node_reqwest.Error.Message.{chain_from, error_chain}

-- The first source, then each further one behind a separator.
abbrev pub separated : List Text → Text
separated [] = []
separated (e ∷ es) = codes "; " ++ e ++ separated es

abbrev pub skip_empty : List Text → List Text
skip_empty [] = []
skip_empty ([] ∷ es) = skip_empty es
skip_empty ((c ∷ e) ∷ es) = (c ∷ e) ∷ es

abbrev pub described : List Text → Text
described [] = codes "<no source>"
described (e ∷ es) = e ++ separated es

chain_from-separated :
    (c : ℕ) (out : Text) (es : List Text) → chain_from (c ∷ out) es ≡ (c ∷ out) ++ separated es
unfolding chain_from
chain_from-separated c out [] = sym (append-nil (c ∷ out))
chain_from-separated c out (e ∷ es) =
    chain_from-separated c ((out ++ codes "; ") ++ e) es
    ∙ ap (◌∷◌ c) (
        append_assoc (out ++ codes "; ") e (separated es)
        ∙ append_assoc out (codes "; ") (e ++ separated es))

-- The chain reads as its sources joined by "; ", where sources with an empty text are left out at
-- the front only; with no other source it reads "<no source>". This is so for every source chain.
pub error_chain-described : (es : List Text) → error_chain es ≡ described (skip_empty es)
unfolding error_chain chain_from
error_chain-described [] = refl
error_chain-described ([] ∷ es) = error_chain-described es
error_chain-described ((c ∷ e) ∷ es) = rw (chain_from-separated c e es)
