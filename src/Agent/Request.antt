-- ===== src/Agent/Request.antt =====
-- packages/core/src/agent.rs, `execute_request`: one request, from its URL to its last callback.
-- The async body is a machine that a poll moves on by at most one of its await points.
pub mod Protocol
pub mod Cap
pub mod Delivery
pub mod Backpressure
pub mod Cancel
pub mod Collect
pub mod Flight
pub mod Outgoing
pub mod Url
pub mod Plain
mod Examples
use node_reqwest.Prelude.{
  ℕ, ◌+◌, Text, codes, is_empty, text_eq, print, length, leb, ltb, if◌then◌else◌, Bool, true, false,
  ◌&&◌, ◌||◌, Option, none, some, List, [], ◌∷◌, ◌++◌,
}
use node_reqwest.Prelude.Outcome.{Result, ok, err}
use node_reqwest.Error.{
  CoreError, Headers, request_aborted, headers_timeout, body_timeout, headers_overflow,
  invalid_argument,
}
use node_reqwest.Error.Reqwest.{ReqwestError, from_reqwest}
use node_reqwest.Dispatcher.{DispatchOptions, ResponseStart, max_headers}
use node_reqwest.Agent.{AgentDefaults}

abbrev pub or_default : Option Text → Text
or_default none = []
or_default (some s) = s

-- `format!("{}{}", …)` or `format!("{}{}?{}", …)`
unfoldable pub request_url : {Method Body : Type 0} → DispatchOptions Method Body → Text
request_url options =
    let origin = or_default options.origin in
    if is_empty options.query
    then origin ++ options.path
    else origin ++ options.path ++ codes "?" ++ options.query

-- The pairs handed to `request.header`, one call for each value.
abbrev pub value_pairs : Text → List Text → List (Text × Text)
value_pairs key [] = []
value_pairs key (value ∷ values) = (key, value) ∷ value_pairs key values

unfoldable pub header_calls : Headers → List (Text × Text)
header_calls [] = []
header_calls ((key, values) ∷ headers) = value_pairs key values ++ header_calls headers

-- `Duration::from_mins(5)`
abbrev pub five_minutes : ℕ
five_minutes = 300000

-- `request.or(default).unwrap_or(Duration::from_mins(5))`
abbrev pub effective_timeout : Option ℕ → Option ℕ → ℕ
effective_timeout (some ms) default = ms
effective_timeout none (some ms) = ms
effective_timeout none none = five_minutes

unfoldable pub headers_deadline :
    {Method Body : Type 0} → DispatchOptions Method Body → AgentDefaults → ℕ
headers_deadline options defaults = effective_timeout options.headers_timeout_ms defaults.headers

unfoldable pub body_deadline :
    {Method Body : Type 0} → DispatchOptions Method Body → AgentDefaults → ℕ
body_deadline options defaults = effective_timeout options.body_timeout_ms defaults.body

-- `cancel_reason`, of the agent's `destroy_error`
abbrev pub cancel_reason : Option CoreError → CoreError
cancel_reason none = request_aborted
cancel_reason (some e) = e

-- What the code uses of the `http` crate and of lossy decoding.
pub record HttpApi : Type 0 where
  pub header_name : Text → Option Text  -- `HeaderName`, in lower case, unless it is refused
  pub canonical_reason : ℕ → Option Text
  pub to_str : Text → Option Text
  pub from_utf8_lossy : Text → Text

-- A response: its status and its header entries, one for each value.
pub record Response : Type 0 where
  pub status : ℕ
  pub entries : List (Text × Text)

-- `acc.entry(key).or_default().push(value)`
unfoldable pub push_entry : Text → Text → Headers → Headers
push_entry key value [] = (key, value ∷ []) ∷ []
push_entry key value ((k, vs) ∷ acc) =
    if text_eq k key then (k, vs ++ value ∷ []) ∷ acc else (k, vs) ∷ push_entry key value acc

-- The callbacks of a `DispatchHandler`.
pub data Event : Type 0 where
  on_start : ResponseStart → Event
  on_data : Text → Event
  on_end : Headers → Event
  on_error : CoreError → Event

-- Where the body stands: at the first `select!`, at the two of the loop, or behind its return.
pub data Phase : Type 0 where
  sending waiting reading finished : Phase

pub record Exchange : Type 0 where
  pub phase : Phase
  pub received_bytes : ℕ  -- u64

unfoldable pub started : Exchange
started = record { phase = sending; received_bytes = 0 }

-- What the task finds when it is polled. `timeout` gives its future's value or `elapsed`; `none` is
-- a pending future. The first `select!` is not biased: `cancel_first` is its choice.
pub data Timed (A : Type 0) : Type 0 where
  in_time : A → Timed A
  elapsed : Timed A

pub record Io : Type 0 where
  pub cancel_first : Bool
  pub sent : Option (Timed (Result ReqwestError Response))
  pub item : Option (Timed (Option (Result ReqwestError Text)))

-- The shared signals: the token, the pause state and the agent's `destroy_error`.
pub record Signals : Type 0 where
  pub cancelled : Bool
  pub paused : Bool
  pub destroy_error : Option CoreError

abbrev pub u64_max : ℕ
u64_max = 18446744073709551615

abbrev pub saturating_add : ℕ → ℕ → ℕ
saturating_add a b = if leb (a + b) u64_max then a + b else u64_max

fail : CoreError → Exchange → Exchange × List Event
fail e x = (record x { phase = finished }, on_error e ∷ [])

abbrev pub cap_error : ℕ → CoreError
cap_error cap =
    invalid_argument (codes "response size exceeds cap of " ++ print cap ++ codes " bytes")

abbrev is_pending {ℓ} : {A : Type ℓ} → Option A → Bool
is_pending none = true
is_pending (some _) = false

module _ (http : HttpApi) where
  abbrev pub header_value : Text → Text
  header_value v = elim (http.to_str v) [ some s ↦ s | none ↦ http.from_utf8_lossy v ]

  -- The fold over the entries, which begins with an empty map.
  unfoldable pub collect : Headers → List (Text × Text) → Headers
  unfolding push_entry
  collect acc [] = acc
  collect acc ((key, v) ∷ entries) = collect (push_entry key (header_value v) acc) entries

  unfoldable pub response_start : Response → ResponseStart
  unfolding collect
  response_start r = record {
    status_code = r.status;
    status_message = or_default (http.canonical_reason r.status);
    headers = collect [] r.entries;
  }

  begin : Response → Exchange → Exchange × List Event
  unfolding fail response_start
  begin r x =
      if ltb max_headers (length r.entries)
      then fail headers_overflow x
      else (record x { phase = waiting }, on_start (response_start r) ∷ [])

  on_sent : Option (Timed (Result ReqwestError Response)) → Exchange → Exchange × List Event
  unfolding begin from_reqwest
  on_sent none x = (x, [])
  on_sent (some (in_time (ok r))) x = begin r x
  on_sent (some (in_time (err e))) x = fail (from_reqwest e false) x
  on_sent (some elapsed) x = fail headers_timeout x

chunk : Option ℕ → Text → Exchange → Exchange × List Event
unfolding fail
chunk none bytes x = (record x { phase = waiting }, on_data bytes ∷ [])
chunk (some cap) bytes x =
    let received = saturating_add x.received_bytes (length bytes) in
    if ltb cap received
    then fail (cap_error cap) (record x { received_bytes = received })
    else (record { phase = waiting; received_bytes = received }, on_data bytes ∷ [])

on_item :
    Option ℕ → Option (Timed (Option (Result ReqwestError Text))) → Exchange → Exchange × List Event
unfolding chunk from_reqwest
on_item cap none x = (x, [])
on_item cap (some (in_time (some (ok bytes)))) x = chunk cap bytes x
on_item cap (some (in_time (some (err e)))) x = fail (from_reqwest e true) x
on_item cap (some (in_time none)) x = (record x { phase = finished }, on_end [] ∷ [])
on_item cap (some elapsed) x = fail body_timeout x

module _ (http : HttpApi) (cap : Option ℕ) where
  poll_phase : Phase → Signals → Io → Exchange → Exchange × List Event
  unfolding on_sent on_item
  poll_phase sending s io x =
      if s.cancelled && (io.cancel_first || is_pending io.sent)
      then fail (cancel_reason s.destroy_error) x
      else on_sent http io.sent x
  poll_phase waiting s io x =
      if s.cancelled
      then fail (cancel_reason s.destroy_error) x
      else if s.paused
      then (x, [])
      else (record x { phase = reading }, [])
  poll_phase reading s io x =
      if s.cancelled then fail (cancel_reason s.destroy_error) x else on_item cap io.item x
  poll_phase finished s io x = (x, [])

  unfoldable pub poll : Signals → Io → Exchange → Exchange × List Event
  unfolding poll_phase
  poll s io x = poll_phase x.phase s io x

  -- The polls of a request, each with what it finds, and all the callbacks they make.
  unfoldable pub run : List (Signals × Io) → Exchange → Exchange × List Event
  run [] x = (x, [])
  run ((s, io) ∷ polls) x =
      let (y, events) = poll s io x in let (z, later) = run polls y in (z, events ++ later)
