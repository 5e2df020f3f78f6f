-- ===== src/Node/Create/Limits/Parts.antt =====
-- packages/node/src/agent.rs: the limits of each part of a configuration.
use node_reqwest.Prelude.{
  ℕ, suc, ◌+◌, ◌^◌, ◌≤◌, ◌<◌, ◌≡◌, refl, ap, inl, inr, Text, codes, text_eq, is_empty, length, All,
  ltb, Bool, true, false, List, [], ◌∷◌, arith,
}
use node_reqwest.Prelude.Outcome.{Result, ok, err, Holds, Holds->>=, Holds-if, Holds-ok}
use node_reqwest.Prelude.Maps.{length-insert_key_le}
use node_reqwest.Agent.{ProxyConfig, direct, system, custom}
use node_reqwest.Node.Js.{Js, Number, nan, infinite, finite, max_zero}
use node_reqwest.Node.FfiUtil.Accepts.{cast-from_zero}
use node_reqwest.Node.Dispatch.{get_string, get_object}
use node_reqwest.Node.Create.{
  max_proxy_headers, read_proxy_headers, proxy_headers_of, parse_proxy_auth, nonempty_uri,
  custom_proxy, proxy_of, parse_proxy, max_redirections_of, pem_of, read_pems, pems_of,
}

abbrev pub ProxyLimited : ProxyConfig → Type 0
ProxyLimited direct = Unit
ProxyLimited system = Unit
ProxyLimited (custom uri headers _) = (is_empty uri ≡ false) × (length headers ≤ max_proxy_headers)

abbrev pub PemsLimited : List Text → Type 0
PemsLimited pems = (length pems ≤ 32) × All (λ pem. length pem ≤ 262144) pems

abbrev FewHeaders : ℕ → List (Text × Text) → Type 0
FewHeaders n headers = length headers ≤ n

module _ (js : Js) where
  read_proxy_headers-FewHeaders :
      (n : ℕ) (obj : js.Value) (keys : List Text) (headers : List (Text × Text))
      → length keys + length headers ≤ n
      → Holds (FewHeaders n) (read_proxy_headers js obj keys headers)
  unfolding read_proxy_headers
  read_proxy_headers-FewHeaders n obj [] headers h = omega (arith, h)
  read_proxy_headers-FewHeaders n obj (key ∷ keys) headers h =
      Holds->>= (FewHeaders n) (get_string js obj key) _ λ value _.
        read_proxy_headers-FewHeaders n obj keys _
          (omega (arith, h, length-insert_key_le key value headers))

  proxy_headers_of-FewHeaders :
      (obj : js.Value) (keys : List Text)
      → Holds (FewHeaders max_proxy_headers) (proxy_headers_of js obj keys)
  unfolding proxy_headers_of
  proxy_headers_of-FewHeaders obj keys =
      Holds-if (FewHeaders max_proxy_headers) (ltb max_proxy_headers (length keys)) _ _ (λ _. tt)
        (λ few. read_proxy_headers-FewHeaders max_proxy_headers obj keys [] (ground (arith, few)))

  nonempty_uri-nonempty : (text : Text) → Holds (λ uri. is_empty uri ≡ false) (nonempty_uri js text)
  unfolding nonempty_uri
  nonempty_uri-nonempty [] = tt
  nonempty_uri-nonempty (b ∷ text) = refl

  custom_proxy-ProxyLimited : (obj : js.Value) → Holds ProxyLimited (custom_proxy js obj)
  unfolding custom_proxy
  custom_proxy-ProxyLimited obj =
      Holds->>= ProxyLimited (get_string js obj (codes "uri")) _ λ text _.
        Holds->>= ProxyLimited (nonempty_uri js text) _ λ uri found.
          Holds->>= ProxyLimited (get_object js obj (codes "headers")) _ λ headers_obj _.
            Holds->>= ProxyLimited (js.own_property_names headers_obj) _ λ keys _.
              Holds->>= ProxyLimited (proxy_headers_of js headers_obj keys) _ λ headers read.
                Holds->>= ProxyLimited (parse_proxy_auth js obj) _ λ auth _. (
                  Holds-ok (λ uri. is_empty uri ≡ false) _ (nonempty_uri-nonempty text) found,
                  Holds-ok (FewHeaders max_proxy_headers) _
                      (proxy_headers_of-FewHeaders headers_obj keys) read,
                )

  pub parse_proxy-ProxyLimited : (obj : js.Value) → Holds ProxyLimited (parse_proxy js obj)
  unfolding parse_proxy proxy_of
  parse_proxy-ProxyLimited obj =
      Holds->>= ProxyLimited (get_string js obj (codes "type")) _ λ kind _.
        Holds-if ProxyLimited (text_eq kind (codes "no-proxy")) _ _ (λ _. tt)
          λ _.
            Holds-if ProxyLimited (text_eq kind (codes "system")) _ _ (λ _. tt)
              λ _.
                Holds-if ProxyLimited (text_eq kind (codes "custom")) _ _
                  (λ _. custom_proxy-ProxyLimited obj) (λ _. tt)

  abbrev pub Redirections : ℕ → Type 0
  Redirections value = value < 2 ^ 32

  -- `n` is at or above zero, or is taken for zero.
  max_redirections_of-from :
      (n : Number) (whole : ℕ) (fractional : Bool)
      → max_zero n ≡ finite false whole fractional
      → Holds Redirections (max_redirections_of js n)
  unfolding max_redirections_of
  max_redirections_of-from n whole fractional e =
      elim (cast-from_zero js 32 false whole fractional refl) [
        | inl (found, lt) ↦ rw (max_redirections_of, e, found) lt
        | inr (refused, _) ↦ rw (max_redirections_of, e, refused) tt
      ]

  pub max_redirections_of-Redirections :
      (n : Number) → Holds Redirections (max_redirections_of js n)
  unfolding max_redirections_of
  max_redirections_of-Redirections nan = max_redirections_of-from nan 0 false refl
  max_redirections_of-Redirections (infinite true) =
      max_redirections_of-from (infinite true) 0 false refl
  max_redirections_of-Redirections (infinite false) =
      rw (max_redirections_of, js.numbers.cast-infinite 32 false) tt
  max_redirections_of-Redirections (finite true whole fractional) =
      max_redirections_of-from (finite true whole fractional) 0 false refl
  max_redirections_of-Redirections (finite false whole fractional) =
      max_redirections_of-from (finite false whole fractional) whole fractional refl

  abbrev Entries : ℕ → List Text → Type 0
  Entries n pems = (length pems ≡ n) × All (λ pem. length pem ≤ 262144) pems

  pem_of-small : (i : ℕ) (text : Text) → Holds (λ pem. length pem ≤ 262144) (pem_of js i text)
  unfolding pem_of
  pem_of-small i text =
      Holds-if (λ pem. length pem ≤ 262144) (ltb 262144 (length text)) _ _ (λ _. tt)
        (λ small. ground (arith, small))

  read_pems-Entries :
      (i : ℕ) (entries : List js.Value) → Holds (Entries (length entries)) (read_pems js i entries)
  unfolding read_pems
  read_pems-Entries i [] = (refl, tt)
  read_pems-Entries i (entry ∷ entries) =
      Holds->>= (Entries (suc (length entries))) (js.as_string entry) _ λ text _.
        Holds->>= (Entries (suc (length entries))) (pem_of js i text) _ λ pem taken.
          Holds->>= (Entries (suc (length entries))) (read_pems js (i + 1) entries) _ λ pems rest.
            let (count, small) =
              Holds-ok (Entries (length entries)) _ (read_pems-Entries (i + 1) entries) rest in
            (
              ap suc count,
              (Holds-ok (λ pem. length pem ≤ 262144) _ (pem_of-small i text) taken, small),
            )

  pub pems_of-PemsLimited : (entries : List js.Value) → Holds PemsLimited (pems_of js entries)
  unfolding pems_of
  pems_of-PemsLimited entries =
      Holds-if PemsLimited (ltb 32 (length entries)) _ _ (λ _. tt)
        λ few. limited few (read_pems js 0 entries) (read_pems-Entries 0 entries)
    where
      limited :
          ltb 32 (length entries) ≡ false
          → (r : Result js.Thrown (List Text)) → Holds (Entries (length entries)) r
          → Holds PemsLimited r
      limited few (ok pems) (count, small) = (ground (arith, few, count), small)
      limited few (err _) h = tt
