-- ===== src/Node/Dispatch/Lines.antt =====
-- packages/node/src/dispatch.rs: which header map is read from the object `headers`.
use node_reqwest.Prelude.{
  Bool, true, false, ◌≡◌, refl, sym, ◌∙◌, subst, Text, text_eq, text_eq_iff, text_eq-eq,
  text_eq_refl, All, length, ltb, if-intro, Option, some, List, [], ◌∷◌, ◌||◌, Bool-cases, inl, inr,
  arith,
}
use node_reqwest.Prelude.Outcome.{ok, Holds, Holds->>=, Holds-if, Holds-map, Holds-ok}
use node_reqwest.Prelude.Maps.{find, Unique, insert_key, find-insert_key}
use node_reqwest.Error.{Headers}
use node_reqwest.Dispatcher.{max_headers}
use node_reqwest.Node.Js.{Js}
use node_reqwest.Node.Dispatch.{get_string, read_headers, headers_of}

abbrev pub listed : Text → List Text → Bool
listed key [] = false
listed key (k ∷ keys) = text_eq k key || listed key keys

pub Unique-insert_key {ℓ} :
    {A : Type ℓ} (k : Text) (a : A) (entries : List (Text × A))
    → Unique entries
    → Unique (insert_key k a entries)
unfolding insert_key
Unique-insert_key k a [] u = (refl, tt)
Unique-insert_key k a ((j, b) ∷ entries) (absent, u) =
    if-intro Unique (text_eq j k) (λ _. (absent, u))
      (λ other. (
        ground (arith, find-insert_key j k a entries, text_eq_iff j k, text_eq_iff k j),
        Unique-insert_key k a entries u,
      ))

module _ (js : Js) (obj : js.Value) where
  -- What the object has under a key: one value, which a downcast has taken.
  abbrev pub IsRead : Text → Option (List Text) → Type 0
  IsRead key values = (v : Text) × (get_string js obj key ≡ ok v) × (values ≡ some (v ∷ []))

  -- The entry of a map under each key, and that of a map that it goes back to.
  pub record Reads (keys : List Text) (before after : Headers) : Type 0 where
    pub here : (key : Text) → listed key keys ≡ true → IsRead key (find key after)
    pub there : (key : Text) → listed key keys ≡ false → find key after ≡ find key before

  Reads-∷ :
      (k v : Text) (keys : List Text) (before after : Headers)
      → get_string js obj k ≡ ok v
      → Reads keys (insert_key k (v ∷ []) before) after
      → Reads (k ∷ keys) before after
  Reads-∷ k v keys before after got reads = record {
    here = λ key listed_key. elim (Bool-cases (listed key keys)) [
      | inl later ↦ reads.here key later
      | inr new ↦
          let same = text_eq-eq k key (ground (arith, listed_key, new)) in
          subst (λ j. IsRead j (find j after)) same
            (
              v,
              got,
              reads.there k (subst (λ j. listed j keys ≡ false) (sym same) new)
                  ∙ ground (arith, text_eq_refl k, find-insert_key k k (v ∷ []) before),
            )
    ];
    there = λ key absent.
        ground (arith, absent, reads.there key, find-insert_key key k (v ∷ []) before);
  }

  -- Each entry has one value, which a downcast gave.
  abbrev pub IsSingle : (Text × List Text) → Type 0
  IsSingle entry = (key : Text) × (v : Text) × (get_string js obj key ≡ ok v) × (entry.1 ≡ v ∷ [])

  IsSingle-insert_key :
      (k v : Text) (headers : Headers)
      → get_string js obj k ≡ ok v
      → All IsSingle headers
      → All IsSingle (insert_key k (v ∷ []) headers)
  unfolding insert_key
  IsSingle-insert_key k v [] got h = ((k, v, got, refl), tt)
  IsSingle-insert_key k v ((j, b) ∷ headers) got (single, h) =
      if-intro (All IsSingle) (text_eq j k) (λ _. ((k, v, got, refl), h))
        (λ _. (single, IsSingle-insert_key k v headers got h))

  abbrev pub Good : Headers → Type 0
  Good headers = Unique headers × All IsSingle headers

  read_headers-Reads :
      (keys : List Text) (before : Headers)
      → Good before
      → Holds (λ after. Reads keys before after × Good after) (read_headers js obj keys before)
  unfolding read_headers
  read_headers-Reads [] before good =
      (record { here = λ key h. absurd (ground arith); there = λ key h. refl }, good)
  read_headers-Reads (k ∷ keys) before (u, h) =
      Holds->>= (λ after. Reads (k ∷ keys) before after × Good after) (get_string js obj k) _
        λ v got.
          Holds-map (read_headers js obj keys (insert_key k (v ∷ []) before))
            (λ after (reads, good). (Reads-∷ k v keys before after got reads, good))
            (read_headers-Reads keys (insert_key k (v ∷ []) before)
              (Unique-insert_key k (v ∷ []) before u, IsSingle-insert_key k v before got h))

  -- The map that is read has one value for each listed key and nothing else.
  pub headers_of-Reads :
      (keys : List Text) (headers : Headers)
      → headers_of js obj keys ≡ ok headers
      → Reads keys [] headers × Good headers
  unfolding headers_of
  headers_of-Reads keys headers =
      Holds-ok (λ after. Reads keys [] after × Good after) (headers_of js obj keys)
        (Holds-if (λ after. Reads keys [] after × Good after) (ltb max_headers (length keys)) _ _
          (λ _. tt) (λ few. read_headers-Reads keys [] (tt, tt)))

  -- What holds of each key holds of each name of the map.
  module _ (P : Text → Type 0) where
    abbrev EachName : Headers → Type 0
    EachName headers = All (λ entry. P entry.0) headers

    EachName-insert_key :
        (k : Text) (values : List Text) (headers : Headers)
        → P k
        → EachName headers
        → EachName (insert_key k values headers)
    unfolding insert_key
    EachName-insert_key k values [] p h = (p, tt)
    EachName-insert_key k values ((j, b) ∷ headers) p (q, h) =
        if-intro EachName (text_eq j k) (λ _. (q, h))
          (λ _. (q, EachName-insert_key k values headers p h))

    read_headers-EachName :
        (keys : List Text) (before : Headers)
        → All P keys
        → EachName before
        → Holds EachName (read_headers js obj keys before)
    unfolding read_headers
    read_headers-EachName [] before ps h = h
    read_headers-EachName (k ∷ keys) before (p, ps) h =
        Holds->>= EachName (get_string js obj k) _
          λ v got. read_headers-EachName keys _ ps (EachName-insert_key k (v ∷ []) before p h)

    pub headers_of-EachName :
        (keys : List Text) (headers : Headers)
        → headers_of js obj keys ≡ ok headers
        → All P keys
        → All (λ entry. P entry.0) headers
    unfolding headers_of
    headers_of-EachName keys headers e ps =
        Holds-ok EachName (headers_of js obj keys)
          (Holds-if EachName (ltb max_headers (length keys)) _ _ (λ _. tt)
            (λ few. read_headers-EachName keys [] ps tt))
          e
