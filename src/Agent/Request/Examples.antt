-- ===== src/Agent/Request/Examples.antt =====
-- packages/core/src/agent.rs, `execute_request`, at concrete responses.
use node_reqwest.Prelude.{◌≡◌, refl, Text, codes, none, some, [], ◌∷◌, ◌++◌, arith}
use node_reqwest.Dispatcher.{DispatchOptions, default_options}
use node_reqwest.Agent.Request.{
  on_start, on_data, on_error, finished, started, cap_error, response_start, run, or_default,
  request_url,
}
use node_reqwest.Agent.Request.Plain.{plain_http, hello, answered, cancelled}
use node_reqwest.Agent.Request.Cancel.{run-cancelled_twice}
use node_reqwest.Agent.Request.Url.{split_url, asked_query, split_url-request_url}
use node_reqwest.Agent.Request.Delivery.{calm, nothing_yet, reads, run-delivers}

run-delivers_example :
    let done =
      run plain_http
        (some 4)
        ((calm, answered)
          ∷ (calm, nothing_yet)
          ∷ reads (some (codes "abc") ∷ none ∷ some (codes "de") ∷ []))
        started in
    (done.0.phase ≡ finished)
    × (done.1
        ≡ on_start (response_start plain_http hello)
          ∷ on_data (codes "abc")
          ∷ on_error (cap_error 4)
          ∷ [])
run-delivers_example =
    run-delivers plain_http (some 4) hello (some (codes "abc") ∷ none ∷ some (codes "de") ∷ [])
      (omega arith) (omega arith)

run-cancelled_twice_example :
    (run plain_http none ((cancelled, answered) ∷ (cancelled, nothing_yet) ∷ []) started).0.phase
    ≡ finished
run-cancelled_twice_example =
    run-cancelled_twice plain_http none cancelled cancelled answered nothing_yet [] started refl
      refl

-- `GET h:/x?a=1`
abbrev asked : DispatchOptions Text Text
asked = record (default_options (codes "GET")) {
  origin = some (codes "h:");
  path = codes "/x";
  query = codes "a=1";
}

split_url-request_url_example : split_url (request_url asked) ≡ record {
  target = or_default asked.origin ++ asked.path;
  query = asked_query asked.query;
  fragment = none;
}
unfolding default_options
split_url-request_url_example =
    split_url-request_url asked ((refl, refl), ((refl, refl), ((refl, refl), ((refl, refl), tt))))
      (refl, (refl, (refl, tt)))
