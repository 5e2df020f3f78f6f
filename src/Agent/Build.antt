-- ===== src/Agent/Build.antt =====
-- packages/core/src/agent.rs, `Agent::new` and `configure_happy_eyeballs`: the client that an agent
-- builds from its configuration.
pub mod Checks
mod Examples
use node_reqwest.Prelude.{
  ℕ, Text, codes, ◌==◌, if◌then◌else◌, Bool, true, false, not, Option, none, some, List, [], ◌∷◌,
  ◌++◌,
}
use node_reqwest.Prelude.Outcome.{Result, ok, err, ◌>>=◌, map_err}
use node_reqwest.Error.{CoreError, invalid_argument}
use node_reqwest.Error.Reqwest.{ReqwestError, from_reqwest}
use node_reqwest.Agent.{AgentConfig, AgentDefaults, ProxyAuth, ProxyConfig, direct, system, custom}

-- What the code calls of reqwest; a proxy's error is the text that it displays.
pub record Reqwest : Type 1 where
  pub IpAddr : Type 0
  pub Builder : Type 0
  pub Client : Type 0
  pub Certificate : Type 0
  pub Policy : Type 0
  pub Proxy : Type 0
  pub HeaderName : Type 0
  pub HeaderValue : Type 0
  pub HeaderMap : Type 0
  pub builder : Builder
  pub cookie_store : Bool → Builder → Builder
  pub timeout : ℕ → Builder → Builder
  pub connect_timeout : ℕ → Builder → Builder
  pub pool_idle_timeout : ℕ → Builder → Builder
  pub no_redirects : Policy
  pub limited : ℕ → Policy
  pub redirect : Policy → Builder → Builder
  pub http1_only : Builder → Builder
  pub danger_accept_invalid_certs : Bool → Builder → Builder
  pub danger_accept_invalid_hostnames : Bool → Builder → Builder
  pub local_address : IpAddr → Builder → Builder
  pub from_pem_bundle : Text → Option (List Certificate)
  pub add_root_certificate : Certificate → Builder → Builder
  pub no_proxy : Builder → Builder
  pub proxy_all : Text → Result Text Proxy
  pub basic_auth : Text → Text → Proxy → Proxy
  pub header_name : Text → Option HeaderName
  pub header_value : Text → Option HeaderValue
  pub no_headers : HeaderMap
  pub insert_header : HeaderName → HeaderValue → HeaderMap → HeaderMap
  pub proxy_headers : HeaderMap → Proxy → Proxy
  pub proxy : Proxy → Builder → Builder
  pub hickory_dns : Bool → Builder → Builder
  pub build : Builder → Result ReqwestError Client

-- `ok_or`, as `map_err(|_| …)` does it
abbrev pub or_error {ℓ} : {A : Type ℓ} → Text → Option A → Result CoreError A
or_error message (some a) = ok a
or_error message none = err (invalid_argument message)

-- `if let Some(a) = option { builder = … }`
abbrev pub with_option {ℓ κ} : {A : Type ℓ} {B : Type κ} → (A → B → B) → Option A → B → B
with_option set none b = b
with_option set (some a) b = set a b

-- `if c { builder = … }`
abbrev pub when {κ} : {B : Type κ} → Bool → (B → B) → B → B
when c set b = if c then set b else b

module _ (rq : Reqwest) where
  configure_happy_eyeballs : rq.Builder → Bool → rq.Builder
  configure_happy_eyeballs builder true = builder
  configure_happy_eyeballs builder false = rq.hickory_dns false builder

  redirect_policy : ℕ → rq.Policy
  redirect_policy max_redirections =
      if max_redirections == 0 then rq.no_redirects else rq.limited max_redirections

  -- The calls before the certificates.
  configured : AgentConfig rq.IpAddr → rq.Builder
  unfolding redirect_policy
  configured config =
      let b0 = rq.cookie_store false rq.builder in
      let b1 = with_option rq.timeout config.timeout b0 in
      let b2 = with_option rq.connect_timeout config.connect_timeout b1 in
      let b3 = with_option rq.pool_idle_timeout config.pool_idle_timeout b2 in
      let b4 = rq.redirect (redirect_policy config.max_redirections) b3 in
      let b5 = when (not config.allow_h2) rq.http1_only b4 in
      let b6 = when (not config.reject_unauthorized) (rq.danger_accept_invalid_certs true) b5 in
      let b7 =
        when (not config.reject_invalid_hostnames) (rq.danger_accept_invalid_hostnames true) b6 in
      with_option rq.local_address config.local_address b7

  add_certificates : List rq.Certificate → rq.Builder → rq.Builder
  add_certificates [] builder = builder
  add_certificates (cert ∷ certs) builder =
      add_certificates certs (rq.add_root_certificate cert builder)

  add_bundles : List Text → rq.Builder → Result CoreError rq.Builder
  unfolding add_certificates
  add_bundles [] builder = ok builder
  add_bundles (pem ∷ pems) builder = do
    certs ← or_error (codes "invalid CA certificate") (rq.from_pem_bundle pem)
    add_bundles pems (add_certificates certs builder)

  header_map : List (Text × Text) → rq.HeaderMap → Result CoreError rq.HeaderMap
  header_map [] headers = ok headers
  header_map ((k, v) ∷ entries) headers = do
    name ← or_error (codes "invalid proxy header name") (rq.header_name k)
    value ← or_error (codes "invalid proxy header value") (rq.header_value v)
    header_map entries (rq.insert_header name value headers)

  -- `if !headers.is_empty()`
  with_headers : List (Text × Text) → rq.Proxy → Result CoreError rq.Proxy
  unfolding header_map
  with_headers [] proxy = ok proxy
  with_headers (entry ∷ entries) proxy =
      header_map (entry ∷ entries) rq.no_headers >>= λ headers. ok (rq.proxy_headers headers proxy)

  with_auth : Option ProxyAuth → rq.Proxy → rq.Proxy
  with_auth none proxy = proxy
  with_auth (some auth) proxy = rq.basic_auth auth.username auth.password proxy

  with_proxy : ProxyConfig → rq.Builder → Result CoreError rq.Builder
  unfolding with_headers with_auth
  with_proxy direct builder = ok (rq.no_proxy builder)
  with_proxy system builder = ok builder
  with_proxy (custom uri headers auth) builder = do
    proxy ← map_err (λ e. invalid_argument (codes "invalid proxy URI: " ++ e)) (rq.proxy_all uri)
    full ← with_headers headers (with_auth auth proxy)
    ok (rq.proxy full builder)

  -- The builder that `build` is called on.
  unfoldable pub client_builder : AgentConfig rq.IpAddr → Result CoreError rq.Builder
  unfolding configured add_bundles with_proxy configure_happy_eyeballs
  client_builder config = do
    trusting ← add_bundles config.ca (configured config)
    routed ← with_proxy config.proxy trusting
    ok (configure_happy_eyeballs routed config.auto_select_family)

  -- `Agent::new`: the client and the defaults; the rest of the state is `Lifecycle.new_state`.
  unfoldable pub new_agent : AgentConfig rq.IpAddr → Result CoreError (rq.Client × AgentDefaults)
  new_agent config = do
    builder ← client_builder config
    client ← map_err (λ e. from_reqwest e false) (rq.build builder)
    ok (
      client,
      record {
        headers = config.headers_timeout;
        body = config.body_timeout;
        max_response_size = config.max_response_size;
      },
    )

-- Builders that only remember whether every check is on.
abbrev pub plain_reqwest : Reqwest
plain_reqwest = record {
  IpAddr = Text;
  Builder = Bool;
  Client = Bool;
  Certificate = Text;
  Policy = ℕ;
  Proxy = Text;
  HeaderName = Text;
  HeaderValue = Text;
  HeaderMap = List (Text × Text);
  builder = true;
  cookie_store = λ _ b. b;
  timeout = λ _ b. b;
  connect_timeout = λ _ b. b;
  pool_idle_timeout = λ _ b. b;
  no_redirects = 0;
  limited = λ n. n;
  redirect = λ _ b. b;
  http1_only = λ b. b;
  danger_accept_invalid_certs = λ _ _. false;
  danger_accept_invalid_hostnames = λ _ _. false;
  local_address = λ _ b. b;
  from_pem_bundle = λ pem. some (pem ∷ []);
  add_root_certificate = λ _ b. b;
  no_proxy = λ b. b;
  proxy_all = λ uri. ok uri;
  basic_auth = λ _ _ p. p;
  header_name = λ s. some s;
  header_value = λ s. some s;
  no_headers = [];
  insert_header = λ k v m. (k, v) ∷ m;
  proxy_headers = λ _ p. p;
  proxy = λ _ b. b;
  hickory_dns = λ _ b. b;
  build = λ b. ok b;
}
