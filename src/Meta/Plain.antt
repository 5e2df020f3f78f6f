-- ===== src/Meta/Plain.antt =====
-- A serde_json for the examples that prints objects with a single entry `version` only.
use node_reqwest.Prelude.{
  ◌≡◌, refl, ap, Text, codes, text_eq, text_eq-eq, if◌then◌else◌, Option, none, some, List, [], ◌∷◌,
  ◌++◌, arith,
}
use node_reqwest.Meta.Package.{Json}

-- A string, or an object as a chain of its entries.
pub data Plain : Type 0 where
  string : Text → Plain
  end : Plain
  entry : Text → Plain → Plain → Plain

abbrev pub and_entry : Text → Plain → Option (List (Text × Plain)) → Option (List (Text × Plain))
and_entry k v none = none
and_entry k v (some entries) = some ((k, v) ∷ entries)

abbrev pub as_object : Plain → Option (List (Text × Plain))
as_object (string _) = none
as_object end = some []
as_object (entry k v rest) = and_entry k v (as_object rest)

abbrev pub of_object : List (Text × Plain) → Plain
of_object [] = end
of_object ((k, v) ∷ entries) = entry k v (of_object entries)

pub as_object-of_object :
    (entries : List (Text × Plain)) → as_object (of_object entries) ≡ some entries
as_object-of_object [] = refl
as_object-of_object ((k, v) ∷ entries) = ap (and_entry k v) (as_object-of_object entries)

abbrev pub before_last : Text → Text
before_last [] = []
before_last (b ∷ []) = []
before_last (b ∷ c ∷ s) = b ∷ before_last (c ∷ s)

before_last-append : (s : Text) → before_last (s ++ codes "\n") ≡ s
before_last-append [] = refl
before_last-append (b ∷ []) = refl
before_last-append (b ∷ c ∷ s) = ap (◌∷◌ b) (before_last-append (c ∷ s))

abbrev pub from_str : Text → Option Plain
from_str s = some (entry (codes "version") (string (before_last s)) end)

abbrev pub to_string_pretty : Plain → Option Text
to_string_pretty (entry k (string s) end) = if text_eq k (codes "version") then some s else none
to_string_pretty _ = none

pub from_str-pretty :
    (v : Plain) (text : Text)
    → to_string_pretty v ≡ some text
    → from_str (text ++ codes "\n") ≡ some v
from_str-pretty (entry k (string s) end) text e =
    ground (arith, e, before_last-append text, text_eq-eq k (codes "version"))
from_str-pretty (entry k (string s) (string _)) text e = cc
from_str-pretty (entry k (string s) (entry _ _ _)) text e = cc
from_str-pretty (entry k end rest) text e = cc
from_str-pretty (entry k (entry _ _ _) rest) text e = cc
from_str-pretty (string s) text e = cc
from_str-pretty end text e = cc

abbrev pub plain_json : Json
plain_json = record {
  Value = Plain;
  from_str = from_str;
  to_string_pretty = to_string_pretty;
  string = λ s. string s;
  as_object = as_object;
  of_object = of_object;
  as_object-of_object = as_object-of_object;
  from_str-pretty = from_str-pretty;
}
