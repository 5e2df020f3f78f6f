-- ===== src/Meta/Package/Updates.antt =====
-- packages/meta/src/lib.rs, `npm_version`: what becomes of the entries, and a second run.
use node_reqwest.Prelude.{
  ◌≡◌, refl, sym, ap, subst, ◌∙◌, Text, codes, text_eq, if◌then◌else◌, Option, none, some, List,
  ◌++◌,
}
use node_reqwest.Prelude.Outcome.{Result, ok, ◌>>=◌}
use node_reqwest.Prelude.Maps.{find, insert_key, find-insert_key, insert_key-insert_key}
use node_reqwest.Meta.Version.{Version, to_string}
use node_reqwest.Meta.Package.{Json, Failed, or_failed, to_serialize, set_version, new_content}

module _ (json : Json) (version : Version) where
  -- The file holds the same entries, with this version.
  abbrev pub Updated : List (Text × json.Value) → Text → Type 0
  Updated entries text =
      (value : json.Value) × (after : List (Text × json.Value)) × (json.from_str text ≡ some value)
      × (json.as_object value ≡ some after)
      × ((key : Text)
          → find key after ≡ (
              if text_eq (codes "version") key
              then some (json.string (to_string version))
              else find key entries))
      × (new_content json version (some text) ≡ ok text)

  abbrev stamped : List (Text × json.Value) → List (Text × json.Value)
  stamped entries = insert_key (codes "version") (json.string (to_string version)) entries

  -- A file with these entries becomes the print of the stamped ones.
  written : List (Text × json.Value) → Result Failed Text
  written entries =
      or_failed to_serialize (json.to_string_pretty (json.of_object (stamped entries))) >>= λ text.
      ok (text ++ codes "\n")

  new_content-written :
      (content : Text) (value : json.Value) (entries : List (Text × json.Value))
      → json.from_str content ≡ some value
      → json.as_object value ≡ some entries
      → new_content json version (some content) ≡ written entries
  unfolding new_content set_version written
  new_content-written content value entries parsed object =
      rw (new_content, parsed, set_version, object) refl

  written-stamped :
      (entries : List (Text × json.Value)) → written (stamped entries) ≡ written entries
  unfolding written
  written-stamped entries =
      ap
        (λ (es : List (Text × json.Value)).
          or_failed to_serialize (json.to_string_pretty (json.of_object es)) >>= λ text.
          ok (text ++ codes "\n"))
        (insert_key-insert_key (codes "version") _ _ entries)

  -- When `npm_version` succeeds on a file that holds an object, the file it writes parses to the same
  -- entries but for `version`, which is the given one; and a second run writes the same text again.
  pub Updated-new_content :
      (content text : Text) (value : json.Value) (entries : List (Text × json.Value))
      → json.from_str content ≡ some value
      → json.as_object value ≡ some entries
      → new_content json version (some content) ≡ ok text
      → Updated entries text
  unfolding written
  Updated-new_content content text value entries parsed object made =
      go (json.to_string_pretty (json.of_object (stamped entries))) refl
        (sym (new_content-written content value entries parsed object) ∙ made)
    where
      go :
          (o : Option Text)
          → json.to_string_pretty (json.of_object (stamped entries)) ≡ o
          → written entries ≡ ok text
          → Updated entries text
      go none e w = absurd (cc (rw (written, e) at w))
      go (some t) e w =
          let shape : t ++ codes "\n" ≡ text = cc (rw (written, e) at w) in
          let read =
            subst (λ s. json.from_str s ≡ some (json.of_object (stamped entries))) shape
              (json.from_str-pretty _ t e) in
          let holds = json.as_object-of_object (stamped entries) in
          (
            json.of_object (stamped entries),
            stamped entries,
            read,
            holds,
            λ key. find-insert_key key (codes "version") _ entries,
            new_content-written text _ (stamped entries) read holds ∙ written-stamped entries ∙ w,
          )
