-- ===== src/Node/Examples.antt =====
-- packages/node/src at concrete values.
use node_reqwest.Prelude.{
  ℕ, ◌≡◌, ◌↔◌, refl, Text, codes, text_eq, All, if◌then◌else◌, true, false, none, some, List, [],
  ◌∷◌, map, arith,
}
use node_reqwest.Prelude.Outcome.{Result, ok, err}
use node_reqwest.Prelude.Maps.{find, insert_key}
use node_reqwest.Error.{Headers, CoreError}
use node_reqwest.Dispatcher.{DispatchOptions}
use node_reqwest.Runtime.{plain_watch, plain_cancellation}
use node_reqwest.Dispatcher.Controller.{RequestController, is_cancelled, is_paused}
use node_reqwest.Dispatcher.Controller
use node_reqwest.Node.Entry.{
  request_handle_abort, request_handle_pause, request_handle_resume, agent_dispatch,
}
use node_reqwest.Node.Entry.Accepted.{Dispatched, Dispatched-agent_dispatch}
use node_reqwest.Dispatcher.Method.{plain_methods, parse_method}
use node_reqwest.Agent.Request.Plain.{plain_http}
use node_reqwest.Agent.Request.{Signals, Io, in_time, started, run}
use node_reqwest.Node.Js.{finite, is_zero}
use node_reqwest.Node.Plain.{Plain, plain_js, end, member}
use node_reqwest.Node.FfiUtil.{opt_timeout_ms, opt_size}
use node_reqwest.Node.FfiUtil.Accepts.{Reads, opt_timeout_ms_iff}
use node_reqwest.Node.Body.{threw, resolved, new, into_stream, sent}
use node_reqwest.Node.Body.Streams.{done, more, spent, into_stream-Carry}
use node_reqwest.Agent.{AgentConfig, default_config, system}
use node_reqwest.Agent.Build.{plain_reqwest}
use node_reqwest.Agent.Request.Protocol.{fresh, stage}
use node_reqwest.Agent.Request.Delivery.{calm, nothing_yet}
use node_reqwest.Node.Dispatch.{BodyApi, parse_dispatch_options}
use node_reqwest.Node.Create.{config_of, parse_proxy}
use node_reqwest.Node.Create.Limits.{Limited, Limited-config_of}
use node_reqwest.Node.Handler.Order.{walk_calls, IsFor, walk_calls-run}
use node_reqwest.Node.Handler.{JsCall, calls_of, JsObject, headers_to_js}
use node_reqwest.Node.Handler.Properties.{map_values, find-headers_to_js}

-- `{ timeout: 0.5 }`
abbrev half : Plain
half = Plain.object (member (codes "timeout") (Plain.number (finite false 0 true)) end)

opt_timeout_ms_iff_example :
    (opt_timeout_ms plain_js half (codes "timeout") ≡ ok (some 0))
    ↔ (Reads (finite false 0 true) 0 × (is_zero (finite false 0 true) ≡ false))
unfolding text_eq
opt_timeout_ms_iff_example =
    opt_timeout_ms_iff plain_js half (Plain.number (finite false 0 true)) (codes "timeout")
      (finite false 0 true) 0 refl refl refl

half_reads : opt_timeout_ms plain_js half (codes "timeout") ≡ ok (some 0)
half_reads = opt_timeout_ms_iff_example.1 ((false, true, refl, refl, omega arith), refl)

-- `{ done: false, value: "hi" }`
abbrev hi : Plain
hi = Plain.object (
    member (codes "done") (Plain.boolean false)
      (member (codes "value") (Plain.bytes (codes "hi")) end))

hi_carried : sent plain_js (resolved hi) ≡ some (ok (some (codes "hi")))
unfolding sent text_eq
hi_carried = refl

into_stream-Carry_example :
    into_stream plain_js (resolved hi ∷ threw ∷ resolved hi ∷ []) (new plain_js Plain.null)
    ≡ record {
      items = ok (codes "hi") ∷ err (codes "body reader cancelled") ∷ [];
      ended = true;
      reader = spent plain_js Plain.null;
      unread = resolved hi ∷ [];
    }
unfolding sent
into_stream-Carry_example =
    into_stream-Carry plain_js Plain.null (more hi_carried done) threw (resolved hi ∷ []) none refl
      (λ chunk. λ e. cc)

abbrev cookies : Headers
cookies = (codes "via", codes "a" ∷ []) ∷ (codes "Set-Cookie", codes "b" ∷ []) ∷ []

find-headers_to_js_example :
    (result : JsObject) × (headers_to_js cookies ≡ ok result)
    × ((key : Text)
        → find key result
          ≡ (if text_eq key (codes "__proto__") then none else map_values key (find key cookies)))
unfolding text_eq
find-headers_to_js_example =
    find-headers_to_js cookies (refl, (refl, tt)) (omega arith, (omega arith, tt))

abbrev polls : List (Signals × Io)
polls =
    (
      calm,
      record nothing_yet {
        sent =
            some (in_time (ok (record { status = 200; entries = (codes "via", codes "a") ∷ [] })));
      },
    )
    ∷ (calm, nothing_yet)
    ∷ (calm, record nothing_yet { item = some (in_time none) })
    ∷ []

walk_calls-run_example :
    (calls : List JsCall) × (calls_of 7 (run plain_http none polls started).1
      ≡ map (λ c. ok c) calls)
    × All (IsFor 7) calls
    × (walk_calls (some fresh) calls ≡ some (stage (run plain_http none polls started).0.phase))
walk_calls-run_example = walk_calls-run plain_http none 7 polls

abbrev plain_bodies : BodyApi plain_js
plain_bodies = record { Body = Text; from = λ s. s; wrap_stream = λ _. [] }

-- `{ path: "/", method: "get", query: "", headers: { via: "a" }, bodyBytes: "hi" }`
abbrev request : Plain
request = Plain.object (
    member (codes "path") (Plain.string (codes "/")) (
      member (codes "method") (Plain.string (codes "get")) (
        member (codes "query") (Plain.string []) (
          member (codes "headers")
            (Plain.object (member (codes "via") (Plain.string (codes "a")) end))
            (member (codes "bodyBytes") (Plain.bytes (codes "hi")) end)))))

abbrev parsed : DispatchOptions Text Text
parsed = record {
  origin = none;
  path = codes "/";
  query = [];
  method = codes "GET";
  headers = (codes "via", codes "a" ∷ []) ∷ [];
  body = some (codes "hi");
  headers_timeout_ms = none;
  body_timeout_ms = none;
  connect_timeout_ms = none;
}

request_parses : parse_dispatch_options plain_js plain_methods plain_bodies request ≡ ok parsed
unfolding parse_dispatch_options text_eq opt_timeout_ms parse_method insert_key
request_parses = refl

-- The options of an agent with everything left at its default.
abbrev options : Plain
options = Plain.object (
    member (codes "maxRedirections") (Plain.number (finite false 3 false)) (
      member (codes "allowH2") (Plain.boolean true) (
        member (codes "rejectUnauthorized") (Plain.boolean true) (
          member (codes "rejectInvalidHostnames") (Plain.boolean true) (
            member (codes "ca") (Plain.object (member (codes "0") (Plain.string (codes "pem")) end))
              (member (codes "autoSelectFamily") (Plain.boolean true) (
                member (codes "proxy")
                  (Plain.object (member (codes "type") (Plain.string (codes "system")) end))
                  end)))))))

abbrev config : AgentConfig Text
config = record default_config { max_redirections = 3; ca = codes "pem" ∷ []; proxy = system }

options_read : config_of plain_js plain_reqwest (λ s. some s) options ≡ ok config
unfolding config_of text_eq opt_timeout_ms opt_size default_config parse_proxy
options_read = refl

Limited-config_of_example : Limited plain_js plain_reqwest (λ s. some s) config
Limited-config_of_example =
    Limited-config_of plain_js plain_reqwest (λ s. some s) options config options_read

-- An agent that answers each request with its number.
abbrev echo : DispatchOptions Text Text → ℕ → Result CoreError (ℕ × Text)
echo asked req_id = ok (req_id, asked.path)

seven_dispatched :
    agent_dispatch plain_js plain_methods plain_bodies ℕ Text echo request (finite false 7 true)
    ≡ ok (7, codes "/")
unfolding agent_dispatch parse_dispatch_options text_eq opt_timeout_ms parse_method insert_key
seven_dispatched = refl

Dispatched-agent_dispatch_example :
    Dispatched plain_js plain_methods plain_bodies ℕ Text echo request
      (finite false 7 true)
      (7, codes "/")
Dispatched-agent_dispatch_example =
    Dispatched-agent_dispatch plain_js plain_methods plain_bodies ℕ Text echo request
      (finite false 7 true) (7, codes "/") seven_dispatched

-- A handle that is paused and aborted is both, until it is resumed.
abbrev stopped : RequestController plain_watch plain_cancellation
stopped = request_handle_abort plain_watch plain_cancellation (
    request_handle_pause plain_watch plain_cancellation
      (Controller.new plain_watch plain_cancellation))

handle_calls :
    (is_cancelled plain_watch plain_cancellation stopped ≡ true)
    × (is_paused plain_watch plain_cancellation stopped ≡ true)
    × (is_paused plain_watch plain_cancellation
          (request_handle_resume plain_watch plain_cancellation stopped)
        ≡ false)
unfolding request_handle_abort request_handle_pause request_handle_resume is_cancelled is_paused
    Controller.new Controller.abort Controller.pause Controller.resume
handle_calls = (refl, refl, refl)
