-- ===== src/Agent/Request/Url.antt =====
-- packages/core/src/agent.rs, `execute_request`: the URL of a request, split into its parts.
use node_reqwest.Prelude.{
  ℕ, false, ◌≡◌, refl, Text, codes, is_empty, All, if◌then◌else◌, Option, none, some, [], ◌∷◌, ◌++◌,
  ◌==◌, arith,
}
use node_reqwest.Dispatcher.{DispatchOptions}
use node_reqwest.Agent.Request.{or_default, request_url}

abbrev mark : ℕ
mark = 63  -- '?'

abbrev number_sign : ℕ
number_sign = 35  -- '#'

-- The parts that the URL syntax gives: what stands before the query and the fragment, then the query,
-- behind a `?`, and the fragment, behind a `#`, which ends what stands before it.
pub record Parts : Type 0 where
  pub target : Text
  pub query : Option Text
  pub fragment : Option Text

-- The query, up to the fragment.
abbrev split_fragment : Text → Text × Option Text
split_fragment [] = ([], none)
split_fragment (c ∷ s) =
    let (before, fragment) = split_fragment s in
    if c == number_sign then ([], some s) else (c ∷ before, fragment)

abbrev pub split_url : Text → Parts
split_url [] = record { target = []; query = none; fragment = none }
split_url (c ∷ s) =
    let rest = split_url s in
    let (query, fragment) = split_fragment s in
    if c == number_sign
    then record { target = []; query = none; fragment = some s }
    else if c == mark
    then record { target = []; query = some query; fragment = fragment }
    else record rest { target = c ∷ rest.target }

-- A text without `#`, and one without `?` either.
abbrev pub NoFragment : Text → Type 0
NoFragment s = All (λ c. (c == number_sign) ≡ false) s

abbrev pub NoQuery : Text → Type 0
NoQuery s = All (λ c. ((c == mark) ≡ false) × ((c == number_sign) ≡ false)) s

split_fragment-NoFragment : (s : Text) → NoFragment s → split_fragment s ≡ (s, none)
split_fragment-NoFragment [] h = refl
split_fragment-NoFragment (c ∷ s) (other, h) = ground (arith, other, split_fragment-NoFragment s h)

split_url-NoQuery :
    (s : Text) → NoQuery s → split_url s ≡ record { target = s; query = none; fragment = none }
split_url-NoQuery [] h = refl
split_url-NoQuery (c ∷ s) ((other, clear), h) = ground (arith, other, clear, split_url-NoQuery s h)

split_url-append :
    (s q : Text)
    → NoQuery s
    → NoFragment q
    → split_url (s ++ codes "?" ++ q) ≡ record { target = s; query = some q; fragment = none }
split_url-append [] q h k = ground (arith, split_fragment-NoFragment q k)
split_url-append (c ∷ s) q ((other, clear), h) k =
    ground (arith, other, clear, split_url-append s q h k)

abbrev pub asked_query : Text → Option Text
asked_query query = if is_empty query then none else some query

-- Where neither the origin nor the path has a `?` or a `#`, and the query no `#`, the URL has the
-- origin and the path before its query, the query itself, and no fragment; an empty query is none.
pub split_url-request_url :
    {Method Body : Type 0} (options : DispatchOptions Method Body)
    → NoQuery (or_default options.origin ++ options.path)
    → NoFragment options.query
    → split_url (request_url options) ≡ record {
      target = or_default options.origin ++ options.path;
      query = asked_query options.query;
      fragment = none;
    }
unfolding request_url
split_url-request_url options h = by_query options.query
  where
    by_query :
        (query : Text)
        → NoFragment query
        → split_url (
            if is_empty query
            then or_default options.origin ++ options.path
            else or_default options.origin ++ options.path ++ codes "?" ++ query)
          ≡ record {
            target = or_default options.origin ++ options.path;
            query = asked_query query;
            fragment = none;
          }
    by_query [] k = split_url-NoQuery (or_default options.origin ++ options.path) h
    by_query (c ∷ q) k = split_url-append (or_default options.origin ++ options.path) (c ∷ q) h k
