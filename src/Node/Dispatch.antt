-- ===== src/Node/Dispatch.antt =====
-- packages/node/src/dispatch.rs: the options of a request, read from a JavaScript object.
pub mod Bounds
pub mod Lines
use node_reqwest.Prelude.{
  Text, codes, length, ltb, if◌then◌else◌, Option, none, some, List, [], ◌∷◌,
}
use node_reqwest.Prelude.Outcome.{Result, ok, err, ◌>>=◌, map_err}
use node_reqwest.Prelude.Maps.{insert_key}
use node_reqwest.Error.{Headers, to_string}
use node_reqwest.Dispatcher.{DispatchOptions, max_headers}
use node_reqwest.Dispatcher.Method.{MethodApi, parse_method}
use node_reqwest.Node.Js.{Js, is_nullish}
use node_reqwest.Node.FfiUtil.{opt_timeout_ms}
use node_reqwest.Node.Body.{JsBodyReader}
use node_reqwest.Node.Body

-- `reqwest::Body`: from bytes, or from the stream of a body reader.
pub record BodyApi (js : Js) : Type 1 where
  pub Body : Type 0
  pub from : Text → Body
  pub wrap_stream : JsBodyReader js → Body

module _ (js : Js) where
  -- `obj.get::<JsString>(key)`: the property, downcast.
  abbrev pub get_string : js.Value → Text → Result js.Thrown Text
  get_string obj key = js.get obj key >>= js.as_string

  abbrev pub get_object : js.Value → Text → Result js.Thrown js.Value
  get_object obj key = js.get obj key >>= js.as_object

  origin_of : js.Value → Result js.Thrown (Option Text)
  origin_of origin =
      if js.is_string origin then (js.as_string origin >>= λ s. ok (some s)) else ok none

  -- The loop over the keys: `headers.insert(key, vec![value])`.
  read_headers : js.Value → List Text → Headers → Result js.Thrown Headers
  read_headers obj [] headers = ok headers
  read_headers obj (key ∷ keys) headers =
      get_string obj key >>= λ value. read_headers obj keys (insert_key key (value ∷ []) headers)

  unfoldable pub headers_of : js.Value → List Text → Result js.Thrown Headers
  unfolding read_headers
  headers_of obj keys =
      if ltb max_headers (length keys)
      then err (js.error (codes "headers: too many entries (max 256)"))
      else read_headers obj keys []

module _ (js : Js) (api : MethodApi) (bodies : BodyApi js) where
  streamed : js.Value → Result js.Thrown (Option bodies.Body)
  streamed body =
      if is_nullish js body
      then ok none
      else (js.as_object body >>= λ reader. ok (some (bodies.wrap_stream (Body.new js reader))))

  -- `bodyBytes` if it is there, else the reader `body`, which is looked up only then.
  body_of : js.Value → js.Value → Result js.Thrown (Option bodies.Body)
  unfolding streamed
  body_of obj bytes =
      if is_nullish js bytes
      then (js.get obj (codes "body") >>= streamed)
      else (js.as_bytes bytes >>= λ view. ok (some (bodies.from view)))

  unfoldable pub parse_dispatch_options :
      js.Value → Result js.Thrown (DispatchOptions api.Method bodies.Body)
  unfolding origin_of headers_of body_of
  parse_dispatch_options obj = do
    path ← get_string js obj (codes "path")
    method_str ← get_string js obj (codes "method")
    origin ← js.get obj (codes "origin")
    query ← get_string js obj (codes "query")
    method ← map_err (λ e. js.error (to_string e)) (parse_method api method_str)
    origin_str ← origin_of js origin
    headers_obj ← get_object js obj (codes "headers")
    keys ← js.own_property_names headers_obj
    headers ← headers_of js headers_obj keys
    headers_timeout ← opt_timeout_ms js obj (codes "headersTimeout")
    body_timeout ← opt_timeout_ms js obj (codes "bodyTimeout")
    bytes ← js.get obj (codes "bodyBytes")
    body ← body_of obj bytes
    ok (record {
      origin = origin_str;
      path = path;
      query = query;
      method = method;
      headers = headers;
      body = body;
      headers_timeout_ms = headers_timeout;
      body_timeout_ms = body_timeout;
      connect_timeout_ms = none;
    })
