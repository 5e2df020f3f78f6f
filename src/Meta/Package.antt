-- ===== src/Meta/Package.antt =====
-- packages/meta/src/lib.rs, `npm_version`: the version in package.json.
pub mod Updates
use node_reqwest.Prelude.{Text, codes, Bool, true, false, Option, none, some, List, ◌++◌, ◌≡◌}
use node_reqwest.Prelude.Outcome.{Result, ok, err, ◌>>=◌}
use node_reqwest.Prelude.Maps.{insert_key}
use node_reqwest.Meta.Version.{Version, to_string}

-- What the code uses of serde_json, which keeps the order of an object's entries. What is printed
-- parses to the value that it was printed from, with a line break behind it too.
pub record Json : Type 1 where
  pub Value : Type 0
  pub from_str : Text → Option Value
  pub to_string_pretty : Value → Option Text
  pub string : Text → Value
  pub as_object : Value → Option (List (Text × Value))
  pub of_object : List (Text × Value) → Value
  pub as_object-of_object :
      (entries : List (Text × Value)) → as_object (of_object entries) ≡ some entries
  pub from_str-pretty :
      (v : Value) (text : Text)
      → to_string_pretty v ≡ some text
      → from_str (text ++ codes "\n") ≡ some v

-- The context that each failing step adds to its error.
pub data Failed : Type 0 where
  to_read to_parse to_serialize to_write : Failed

abbrev pub or_failed {ℓ} : {A : Type ℓ} → Failed → Option A → Result Failed A
or_failed step (some a) = ok a
or_failed step none = err step

module _ (json : Json) where
  -- `if let Some(obj) = json.as_object_mut() { obj.insert(…) }`
  set_version : Version → json.Value → json.Value
  unfolding to_string
  set_version version value = elim (json.as_object value) [
    | none ↦ value
    | some entries ↦
        json.of_object (insert_key (codes "version") (json.string (to_string version)) entries)
  ]

  -- The new content, from what reading the file gave.
  unfoldable pub new_content : Version → Option Text → Result Failed Text
  unfolding set_version
  new_content version file = do
    content ← or_failed to_read file
    value ← or_failed to_parse (json.from_str content)
    text ← or_failed to_serialize (json.to_string_pretty (set_version version value))
    ok (text ++ codes "\n")

  -- `npm_version`, with the write as a parameter: `write` says whether it succeeds.
  unfoldable pub npm_version : Version → Option Text → (Text → Bool) → Result Failed Text
  unfolding new_content
  npm_version version file write = do
    text ← new_content version file
    or_failed to_write (elim (write text) [ true ↦ some text | false ↦ none ])
