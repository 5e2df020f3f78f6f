-- ===== src/Node/Create.antt =====
-- packages/node/src/agent.rs, `parse_proxy`, `parse_proxy_auth` and `agent_create`: an agent from
-- JavaScript options.
pub mod Limits
use node_reqwest.Prelude.{
  ℕ, ◌+◌, ◌*◌, Text, codes, text_eq, is_empty, print, length, ltb, if◌then◌else◌, Bool, Option,
  none, some, List, [], ◌∷◌, ◌++◌,
}
use node_reqwest.Prelude.Outcome.{Result, ok, err, ◌>>=◌, map_err}
use node_reqwest.Prelude.Maps.{insert_key}
use node_reqwest.Error.{to_string}
use node_reqwest.Error.Message.{cap_message_len}
use node_reqwest.Agent.{AgentConfig, AgentDefaults, ProxyAuth, ProxyConfig, direct, system, custom}
use node_reqwest.Agent.Build.{Reqwest, new_agent}
use node_reqwest.Node.Js.{Js, Number, max_zero, is_nullish}
use node_reqwest.Node.FfiUtil.{opt_timeout_ms, opt_size}
use node_reqwest.Node.Dispatch.{get_string, get_object}

abbrev pub max_proxy_headers : ℕ
max_proxy_headers = 64

module _ (js : Js) where
  get_boolean : js.Value → Text → Result js.Thrown Bool
  get_boolean obj key = js.get obj key >>= js.as_boolean

  -- `headers.insert(key, value)` for each key.
  read_proxy_headers :
      js.Value → List Text → List (Text × Text) → Result js.Thrown (List (Text × Text))
  read_proxy_headers obj [] headers = ok headers
  read_proxy_headers obj (key ∷ keys) headers =
      get_string js obj key >>= λ value. read_proxy_headers obj keys (insert_key key value headers)

  proxy_headers_of : js.Value → List Text → Result js.Thrown (List (Text × Text))
  unfolding read_proxy_headers
  proxy_headers_of obj keys =
      if ltb max_proxy_headers (length keys)
      then err (js.error (codes "proxy.headers: too many entries (max 64)"))
      else read_proxy_headers obj keys []

  auth_of : js.Value → Result js.Thrown (Option ProxyAuth)
  auth_of auth_val = do
    auth_obj ← js.as_object auth_val
    username ← get_string js auth_obj (codes "username")
    password ← get_string js auth_obj (codes "password")
    ok (some (record { username = username; password = password }))

  parse_proxy_auth : js.Value → Result js.Thrown (Option ProxyAuth)
  unfolding auth_of
  parse_proxy_auth obj = js.get obj (codes "auth") >>= λ auth_val.
      if is_nullish js auth_val then ok none else auth_of auth_val

  nonempty_uri : Text → Result js.Thrown Text
  nonempty_uri uri =
      if is_empty uri then err (js.error (codes "proxy.uri must be a non-empty string")) else ok uri

  custom_proxy : js.Value → Result js.Thrown ProxyConfig
  unfolding nonempty_uri proxy_headers_of parse_proxy_auth
  custom_proxy obj = do
    text ← get_string js obj (codes "uri")
    uri ← nonempty_uri text
    headers_obj ← get_object js obj (codes "headers")
    keys ← js.own_property_names headers_obj
    headers ← proxy_headers_of headers_obj keys
    auth ← parse_proxy_auth obj
    ok (custom uri headers auth)

  proxy_of : Text → js.Value → Result js.Thrown ProxyConfig
  unfolding custom_proxy
  proxy_of kind obj =
      let other = custom_proxy obj in
      if text_eq kind (codes "no-proxy")
      then ok direct
      else if text_eq kind (codes "system")
      then ok system
      else if text_eq kind (codes "custom")
      then other
      else err (js.error (codes "invalid proxy.type: " ++ kind))

  unfoldable pub parse_proxy : js.Value → Result js.Thrown ProxyConfig
  unfolding proxy_of
  parse_proxy obj = get_string js obj (codes "type") >>= λ kind. proxy_of kind obj

  pub max_redirections_of : Number → Result js.Thrown ℕ
  max_redirections_of n = elim (js.numbers.cast 32 (max_zero n)) [
    | some value ↦ ok value
    | none ↦ err (js.error (codes "maxRedirections: value out of u32 range"))
  ]

  pem_of : ℕ → Text → Result js.Thrown Text
  pem_of i pem =
      if ltb (256 * 1024) (length pem)
      then err (js.error (codes "ca[" ++ print i ++ codes "]: entry too large (max 256 KiB)"))
      else ok pem

  -- The loop over the entries from index `i` on.
  read_pems : ℕ → List js.Value → Result js.Thrown (List Text)
  unfolding pem_of
  read_pems i [] = ok []
  read_pems i (entry ∷ entries) = do
    text ← js.as_string entry
    pem ← pem_of i text
    pems ← read_pems (i + 1) entries
    ok (pem ∷ pems)

  pub pems_of : List js.Value → Result js.Thrown (List Text)
  unfolding read_pems
  pems_of entries =
      if ltb 32 (length entries)
      then err (js.error (codes "ca: too many entries (max 32)"))
      else read_pems 0 entries

-- `s.parse::<IpAddr>()` of the standard library is `parse_ip`.
module _ (js : Js) (rq : Reqwest) (parse_ip : Text → Option rq.IpAddr) where
  parsed_address : Text → Result js.Thrown (Option rq.IpAddr)
  parsed_address s = elim (parse_ip s) [
    | some ip ↦ ok (some ip)
    | none ↦ err (js.error (codes "localAddress: invalid IP"))
  ]

  address_of : js.Value → Result js.Thrown (Option rq.IpAddr)
  unfolding parsed_address
  address_of v = if is_nullish js v then ok none else (js.as_string v >>= parsed_address)

  -- The configuration that `agent_create` makes, in the order in which it reads the options.
  unfoldable pub config_of : js.Value → Result js.Thrown (AgentConfig rq.IpAddr)
  unfolding get_boolean max_redirections_of pems_of address_of
  config_of options = do
    timeout ← opt_timeout_ms js options (codes "timeout")
    headers_timeout ← opt_timeout_ms js options (codes "headersTimeout")
    body_timeout ← opt_timeout_ms js options (codes "bodyTimeout")
    connect_timeout ← opt_timeout_ms js options (codes "connectTimeout")
    keep_alive ← opt_timeout_ms js options (codes "keepAliveTimeout")
    redirections ← js.get options (codes "maxRedirections") >>= js.as_number
    max_redirections ← max_redirections_of js redirections
    max_response_size ← opt_size js options (codes "maxResponseSize")
    allow_h2 ← get_boolean js options (codes "allowH2")
    reject_unauthorized ← get_boolean js options (codes "rejectUnauthorized")
    reject_invalid_hostnames ← get_boolean js options (codes "rejectInvalidHostnames")
    entries ← js.get options (codes "ca") >>= js.elements
    ca ← pems_of js entries
    address ← js.get options (codes "localAddress")
    local_address ← address_of address
    auto_select_family ← get_boolean js options (codes "autoSelectFamily")
    proxy_obj ← get_object js options (codes "proxy")
    proxy ← parse_proxy js proxy_obj
    ok (record {
      timeout = timeout;
      connect_timeout = connect_timeout;
      headers_timeout = headers_timeout;
      body_timeout = body_timeout;
      pool_idle_timeout = keep_alive;
      max_redirections = max_redirections;
      allow_h2 = allow_h2;
      auto_select_family = auto_select_family;
      reject_unauthorized = reject_unauthorized;
      reject_invalid_hostnames = reject_invalid_hostnames;
      ca = ca;
      local_address = local_address;
      max_response_size = max_response_size;
      proxy = proxy;
    })

  -- `AgentHandle`, with the rooted functions of its `SharedCallbacks`.
  pub record AgentHandle : Type 0 where
    pub client : rq.Client
    pub defaults : AgentDefaults
    pub on_start : js.Value
    pub on_data : js.Value
    pub on_end : js.Value
    pub on_error : js.Value

  get_function : js.Value → Text → Result js.Thrown js.Value
  get_function obj key = js.get obj key >>= js.as_function

  unfoldable pub agent_create : js.Value → js.Value → Result js.Thrown AgentHandle
  unfolding config_of get_function
  agent_create options callbacks = do
    config ← config_of options
    agent ← map_err (λ e. js.error (cap_message_len (to_string e))) (new_agent rq config)
    on_start ← get_function callbacks (codes "onResponseStart")
    on_data ← get_function callbacks (codes "onResponseData")
    on_end ← get_function callbacks (codes "onResponseEnd")
    on_error ← get_function callbacks (codes "onResponseError")
    ok (record {
      client = agent.0;
      defaults = agent.1;
      on_start = on_start;
      on_data = on_data;
      on_end = on_end;
      on_error = on_error;
    })
