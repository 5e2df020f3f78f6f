-- ===== src/Node/Handler.antt =====
-- packages/node/src/handler.rs: the callbacks of a request as calls of JavaScript functions.
pub mod Properties
pub mod Order
pub mod AnyOrder
pub mod Echo
mod Examples
use node_reqwest.Prelude.{
  ℕ, ◌+◌, Text, codes, text_eq, ltb, if◌then◌else◌, Bool, none, some, List, [], ◌∷◌,
}
use node_reqwest.Prelude.Outcome.{Result, ok, err, ◌>>=◌}
use node_reqwest.Prelude.Maps.{insert_key}
use node_reqwest.Error.{CoreError, Headers, error_code, to_string, status_code}
use node_reqwest.Dispatcher.Method.{to_ascii_lowercase}
use node_reqwest.Agent.Request.{Event, on_start, on_data, on_end, on_error}

-- The values of the properties and of the arguments that are made here.
pub data Property : Type 0 where
  number : ℕ → Property
  string : Text → Property
  array : List Text → Property

abbrev pub JsObject : Type 0
JsObject = List (Text × Property)

pub data Argument : Type 0 where
  number_argument : ℕ → Argument
  string_argument : Text → Argument
  buffer : Text → Argument
  object : JsObject → Argument

-- `JsObject::set` on an object of `empty_object`, as far as its own properties go: the name
-- `__proto__` is a setter that such an object inherits, which makes no property.
unfoldable pub set : Text → Property → JsObject → JsObject
set key value obj = if text_eq key (codes "__proto__") then obj else insert_key key value obj

-- What `headers_to_js` throws.
pub data TooMany : Type 0 where
  too_many_values : Text → TooMany

abbrev pub two_32 : ℕ
two_32 = 4294967296

-- The loop over `values.iter().enumerate()`, from index `i` on.
pub elements_from : Text → ℕ → List Text → Result TooMany (List Text)
elements_from key i [] = ok []
elements_from key i (v ∷ values) =
    let rest = elements_from key (i + 1) values in
    if ltb i two_32 then (rest >>= λ vs. ok (v ∷ vs)) else err (too_many_values key)

abbrev pub always_array : Text → Bool
always_array key = text_eq (to_ascii_lowercase key) (codes "set-cookie")

pub array_of : Text → List Text → Result TooMany Property
unfolding elements_from
array_of key values = elements_from key 0 values >>= λ vs. ok (array vs)

pub property_of : Text → List Text → Result TooMany Property
unfolding array_of
property_of key [] = array_of key []
property_of key (v ∷ []) = if always_array key then array_of key (v ∷ []) else ok (string v)
property_of key (v ∷ w ∷ values) = array_of key (v ∷ w ∷ values)

pub set_headers : Headers → JsObject → Result TooMany JsObject
unfolding set property_of
set_headers [] obj = ok obj
set_headers ((key, values) ∷ headers) obj =
    property_of key values >>= λ p. set_headers headers (set key p obj)

unfoldable pub headers_to_js : Headers → Result TooMany JsObject
unfolding set_headers
headers_to_js headers = set_headers headers []

-- The object that `on_response_error` makes.
unfoldable pub error_info : CoreError → JsObject
unfolding set
error_info e =
    let named =
      set (codes "message") (string (to_string e))
        (set (codes "code") (string (error_code e)) []) in
    elim (status_code e) [
      | none ↦ named
      | some status ↦ set (codes "statusCode") (number status) named
    ]

-- `SharedCallbacks`: the four functions of the agent.
pub data Callback : Type 0 where
  on_response_start on_response_data on_response_end on_response_error : Callback

pub record JsCall : Type 0 where
  pub callback : Callback
  pub arguments : List Argument

-- What `JsDispatchHandler` sends to the JavaScript thread for a callback of its request.
unfoldable pub call_of : ℕ → Event → Result TooMany JsCall
unfolding headers_to_js error_info
call_of req_id (on_start r) = headers_to_js r.headers >>= λ headers. ok (record {
  callback = on_response_start;
  arguments =
      number_argument req_id
      ∷ number_argument r.status_code
      ∷ object headers
      ∷ string_argument r.status_message
      ∷ [];
})
call_of req_id (on_data chunk) =
    ok (record {
      callback = on_response_data;
      arguments = number_argument req_id ∷ buffer chunk ∷ [];
    })
call_of req_id (on_end trailers) = headers_to_js trailers >>= λ headers. ok (record {
  callback = on_response_end;
  arguments = number_argument req_id ∷ object headers ∷ [];
})
call_of req_id (on_error e) = ok (record {
  callback = on_response_error;
  arguments = number_argument req_id ∷ object (error_info e) ∷ [];
})

-- The calls for the callbacks of a run, in the order in which the channel runs them.
unfoldable pub calls_of : ℕ → List Event → List (Result TooMany JsCall)
unfolding call_of
calls_of req_id [] = []
calls_of req_id (e ∷ events) = call_of req_id e ∷ calls_of req_id events
