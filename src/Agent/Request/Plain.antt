-- ===== src/Agent/Request/Plain.antt =====
-- packages/core/src/agent.rs, `execute_request`: a plain `http` crate, a response and what polls find.
use node_reqwest.Prelude.{
  ℕ, ◌+◌, ◌&&◌, leb, if◌then◌else◌, is_empty, map, Text, codes, true, false, none, some, [], ◌∷◌,
}
use node_reqwest.Prelude.Outcome.{ok}
use node_reqwest.Error.{client_destroyed}
use node_reqwest.Agent.Request.{HttpApi, Response, Signals, Io, in_time}
use node_reqwest.Agent.Request.Delivery.{nothing_yet}

abbrev lower : ℕ → ℕ
lower c = if leb b'A' c && leb c b'Z' then c + 32 else c

abbrev pub plain_http : HttpApi
plain_http = record {
  header_name = λ s. if is_empty s then none else some (map lower s);
  canonical_reason = λ _. some (codes "OK");
  to_str = λ s. some s;
  from_utf8_lossy = λ s. s;
}

abbrev pub hello : Response
hello = record { status = 200; entries = (codes "etag", codes "1") ∷ (codes "via", codes "a") ∷ [] }

abbrev pub answered : Io
answered = record nothing_yet { sent = some (in_time (ok hello)) }

abbrev pub chunked : Text → Io
chunked bytes = record nothing_yet { item = some (in_time (some (ok bytes))) }

abbrev pub cancelled : Signals
cancelled = record { cancelled = true; paused = false; destroy_error = some client_destroyed }

-- The end of the body.
abbrev pub body_ends : Io
body_ends = record nothing_yet { item = some (in_time none) }
