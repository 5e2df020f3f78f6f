-- ===== src/Node/Handler/Examples.antt =====
-- packages/node/src/handler.rs at concrete header maps: lines in two orders, and headers that are
-- sent back.
use node_reqwest.Prelude.{◌≡◌, refl, Text, codes, text_eq, if◌then◌else◌, none, some, List, [], ◌∷◌}
use node_reqwest.Agent.Request.Plain.{plain_http}
use node_reqwest.Prelude.Outcome.{ok}
use node_reqwest.Prelude.Maps.{find, insert_key}
use node_reqwest.Error.{Headers}
use node_reqwest.Agent.Request.Outgoing.{lines_of}
use node_reqwest.Agent.Request.{header_calls, collect}
use node_reqwest.Node.Plain.{Plain, member, end, plain_js}
use node_reqwest.Node.Dispatch.{headers_of}
use node_reqwest.Node.Handler.{JsObject, headers_to_js}
use node_reqwest.Node.Handler.Echo.{read_back, headers_to_js-echo}

abbrev lines : List (Text × Text)
lines = (codes "etag", codes "1") ∷ (codes "via", codes "a") ∷ (codes "via", codes "b") ∷ []

abbrev mixed : List (Text × Text)
mixed = (codes "via", codes "a") ∷ (codes "etag", codes "1") ∷ (codes "via", codes "b") ∷ []

-- `{ via: "a", "set-cookie": "b" }`
abbrev headers_obj : Plain
headers_obj = Plain.object (
    member (codes "via") (Plain.string (codes "a"))
      (member (codes "set-cookie") (Plain.string (codes "b")) end))

abbrev keys : List Text
keys = codes "via" ∷ codes "set-cookie" ∷ []

abbrev sent : Headers
sent = (codes "via", codes "a" ∷ []) ∷ (codes "set-cookie", codes "b" ∷ []) ∷ []

headers_read : headers_of plain_js headers_obj keys ≡ ok sent
unfolding headers_of text_eq insert_key
headers_read = refl

headers_to_js-echo_example :
    (lines : List (Text × Text)) × (lines_of plain_http (header_calls sent) ≡ some lines)
    × (result : JsObject) × (headers_to_js (collect plain_http [] lines) ≡ ok result)
    × ((key : Text)
        → find key result ≡ (
            if text_eq key (codes "__proto__")
            then none
            else read_back plain_http plain_js headers_obj keys key))
headers_to_js-echo_example =
    headers_to_js-echo plain_http plain_js headers_obj keys sent headers_read (refl, (refl, tt))
      (λ key v got. refl)
