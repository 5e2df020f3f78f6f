-- ===== src/Node/Handler/Order.antt =====
-- packages/node/src/handler.rs: the calls that a run of a request makes, in their order.
use node_reqwest.Prelude.{
  ltb, Bool, false, ℕ, ◌≡◌, refl, ap, ◌∙◌, Text, map, length, All, All-append, Option, none, some,
  List, [], ◌∷◌, arith,
}
use node_reqwest.Prelude.Outcome.{Result, ok, err}
use node_reqwest.Prelude.Maps.{AtMost, AtMost-le}
use node_reqwest.Error.{CoreError, Headers}
use node_reqwest.Node.Handler.Properties.{headers_to_js-ok}
use node_reqwest.Error.Reqwest.{ReqwestError}
use node_reqwest.Dispatcher.{ResponseStart, max_headers}
use node_reqwest.Agent.Request.Collect.{AtMost-collect}
use node_reqwest.Agent.Request.{
  HttpApi, Event, on_start, on_data, on_end, on_error, Exchange, Signals, Io, started, poll, run,
  Response, response_start, Timed, in_time, elapsed,
}
use node_reqwest.Agent.Request.Protocol.{
  Stage, fresh, streaming, closed, walk, next_stage, stage, walk-run,
}
use node_reqwest.Node.Handler.{
  Callback, on_response_start, on_response_data, on_response_end, on_response_error, Argument,
  number_argument, object, string_argument, two_32, JsCall, call_of, calls_of,
}

-- The contract as the JavaScript side sees it: which functions of the agent are called for a request.
abbrev pub next_call : Stage → Callback → Option Stage
next_call fresh on_response_start = some streaming
next_call fresh on_response_error = some closed
next_call streaming on_response_data = some streaming
next_call streaming on_response_end = some closed
next_call streaming on_response_error = some closed
next_call _ _ = none

abbrev pub head? {ℓ} : {A : Type ℓ} → List A → Option A
head? [] = none
head? (a ∷ _) = some a

-- The calls of one request against the contract.
abbrev pub walk_calls : Option Stage → List JsCall → Option Stage
walk_calls s [] = s
walk_calls none (c ∷ calls) = none
walk_calls (some s) (c ∷ calls) = walk_calls (next_call s c.callback) calls

abbrev pub IsFor : ℕ → JsCall → Type 0
IsFor req_id c = head? c.arguments ≡ some (number_argument req_id)

-- Callbacks whose header maps an object can hold.
abbrev Small : Event → Type 0
Small (on_start r) = AtMost two_32 r.headers
Small (on_data _) = Unit
Small (on_end trailers) = AtMost two_32 trailers
Small (on_error _) = Unit

abbrev Meant : ℕ → Event → Type 0
Meant req_id e =
    (c : JsCall) × (call_of req_id e ≡ ok c)
    × IsFor req_id c
    × ((s : Stage) → next_call s c.callback ≡ next_stage s e)

start_call :
    (s : Stage) (r : ResponseStart) → next_call s on_response_start ≡ next_stage s (on_start r)
start_call fresh r = refl
start_call streaming r = refl
start_call closed r = refl

data_call : (s : Stage) (chunk : Text) → next_call s on_response_data ≡ next_stage s (on_data chunk)
data_call fresh chunk = refl
data_call streaming chunk = refl
data_call closed chunk = refl

end_call :
    (s : Stage) (trailers : Headers) → next_call s on_response_end ≡ next_stage s (on_end trailers)
end_call fresh trailers = refl
end_call streaming trailers = refl
end_call closed trailers = refl

error_call : (s : Stage) (e : CoreError) → next_call s on_response_error ≡ next_stage s (on_error e)
error_call fresh e = refl
error_call streaming e = refl
error_call closed e = refl

abbrev call : Callback → List Argument → JsCall
call callback arguments = record { callback = callback; arguments = arguments }

call_of-Meant : (req_id : ℕ) (e : Event) → Small e → Meant req_id e
unfolding call_of
call_of-Meant req_id (on_start r) small =
    let (headers, made) = headers_to_js-ok r.headers small in
    (
      call on_response_start (
          number_argument req_id
          ∷ number_argument r.status_code
          ∷ object headers
          ∷ string_argument r.status_message
          ∷ []),
      rw made refl,
      refl,
      λ s. start_call s r,
    )
call_of-Meant req_id (on_data chunk) small = (_, refl, refl, λ s. data_call s chunk)
call_of-Meant req_id (on_end trailers) small =
    let (headers, made) = headers_to_js-ok trailers small in
    (
      call on_response_end (number_argument req_id ∷ object headers ∷ []),
      rw made refl,
      refl,
      λ s. end_call s trailers,
    )
call_of-Meant req_id (on_error e) small = (_, refl, refl, λ s. error_call s e)

calls_of-Small :
    (req_id : ℕ) (events : List Event)
    → All Small events
    → (calls : List JsCall) × (calls_of req_id events ≡ map (λ c. ok c) calls)
      × All (IsFor req_id) calls
      × ((s : Option Stage) → walk_calls s calls ≡ walk s events)
unfolding calls_of
calls_of-Small req_id [] small = ([], refl, tt, λ s. refl)
calls_of-Small req_id (e ∷ events) (small, rest) =
    let (c, made, meant, walks) = call_of-Meant req_id e small in
    let (calls, all, meants, later) = calls_of-Small req_id events rest in
    (c ∷ calls, rw (made, all) refl, (meant, meants), walks_on c e calls events walks later)
  where
    walks_on :
        (c : JsCall) (e : Event) (calls : List JsCall) (events : List Event)
        → ((s : Stage) → next_call s c.callback ≡ next_stage s e)
        → ((s : Option Stage) → walk_calls s calls ≡ walk s events)
        → (s : Option Stage) → walk_calls s (c ∷ calls) ≡ walk s (e ∷ events)
    walks_on c e calls events walks later none = refl
    walks_on c e calls events walks later (some s) =
        ap (λ u. walk_calls u calls) (walks s) ∙ later _

module _ (http : HttpApi) (cap : Option ℕ) where
  AtMost-response_start :
      (r : Response)
      → ltb max_headers (length r.entries) ≡ false
      → AtMost two_32 (response_start http r).headers
  unfolding response_start
  AtMost-response_start r h = AtMost-le _ (ground arith) (AtMost-collect http 0 r.entries [] tt)

  Small-poll :
      (s : Signals) (first : Bool) (sent : Option (Timed (Result ReqwestError Response)))
      (item : Option (Timed (Option (Result ReqwestError Text)))) (x : Exchange)
      → All Small (poll http cap s (record { cancel_first = first; sent = sent; item = item }) x).1
  unfolding poll
  Small-poll s first (some (in_time (ok r))) item x = ground (arith, AtMost-response_start r)
  Small-poll s first (some (in_time (err e))) item x = ground arith
  Small-poll s first (some elapsed) item x = ground arith
  Small-poll s first none item x = ground arith

  Small-run : (polls : List (Signals × Io)) (x : Exchange) → All Small (run http cap polls x).1
  unfolding run
  Small-run [] x = tt
  Small-run ((s, io) ∷ polls) x =
      All-append Small (poll http cap s io x).1 _ (Small-poll s io.cancel_first io.sent io.item x)
        (Small-run polls _)

  -- Whatever each poll of a request finds, no call to JavaScript fails for its headers; each carries
  -- the request's number, and they come in the order of the contract: one start at most, data only
  -- behind it, one end or error at most, made exactly when the request has returned.
  pub walk_calls-run :
      (req_id : ℕ) (polls : List (Signals × Io))
      → (calls : List JsCall) × (calls_of req_id (run http cap polls started).1
          ≡ map (λ c. ok c) calls)
        × All (IsFor req_id) calls
        × (walk_calls (some fresh) calls ≡ some (stage (run http cap polls started).0.phase))
  unfolding started
  walk_calls-run req_id polls =
      let (calls, made, meant, walks) =
        calls_of-Small req_id (run http cap polls started).1 (Small-run polls started) in
      (calls, made, meant, walks (some fresh) ∙ walk-run http cap polls started)
