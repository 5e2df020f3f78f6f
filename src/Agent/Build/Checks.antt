-- ===== src/Agent/Build/Checks.antt =====
-- packages/core/src/agent.rs, `Agent::new`: the checks of certificates and host names stay on.
use node_reqwest.Prelude.{
  ℕ, ◌≡◌, refl, Text, codes, Bool, true, false, not, Option, none, some, List, [], ◌∷◌, arith,
}
use node_reqwest.Prelude.Outcome.{ok, map_err, map_err-ok, Holds, Holds->>=, Holds-ok}
use node_reqwest.Error.Reqwest.{from_reqwest}
use node_reqwest.Agent.{AgentConfig, AgentDefaults, ProxyConfig, direct, system, custom}
use node_reqwest.Agent.Build.{
  Reqwest, or_error, with_option, when, configure_happy_eyeballs, redirect_policy, configured,
  add_certificates, add_bundles, with_headers, with_auth, with_proxy, client_builder, new_agent,
}

-- What a fresh builder has and every call keeps, other than the two that switch a check off.
pub record Kept (rq : Reqwest) (P : rq.Builder → Type 0) : Type 0 where
  pub fresh : P rq.builder
  pub cookie_store : (b : rq.Builder) (c : Bool) → P b → P (rq.cookie_store c b)
  pub timeout : (b : rq.Builder) (ms : ℕ) → P b → P (rq.timeout ms b)
  pub connect_timeout : (b : rq.Builder) (ms : ℕ) → P b → P (rq.connect_timeout ms b)
  pub pool_idle_timeout : (b : rq.Builder) (ms : ℕ) → P b → P (rq.pool_idle_timeout ms b)
  pub redirect : (b : rq.Builder) (p : rq.Policy) → P b → P (rq.redirect p b)
  pub http1_only : (b : rq.Builder) → P b → P (rq.http1_only b)
  pub local_address : (b : rq.Builder) (ip : rq.IpAddr) → P b → P (rq.local_address ip b)
  pub add_root_certificate :
      (b : rq.Builder) (c : rq.Certificate) → P b → P (rq.add_root_certificate c b)
  pub no_proxy : (b : rq.Builder) → P b → P (rq.no_proxy b)
  pub proxy : (b : rq.Builder) (p : rq.Proxy) → P b → P (rq.proxy p b)
  pub hickory_dns : (b : rq.Builder) (c : Bool) → P b → P (rq.hickory_dns c b)

with_option-Kept {ℓ} :
    {A : Type ℓ} {B : Type 0} (P : B → Type 0) (set : A → B → B)
    → ((b : B) (a : A) → P b → P (set a b))
    → (o : Option A) (b : B) → P b
    → P (with_option set o b)
with_option-Kept P set keeps none b p = p
with_option-Kept P set keeps (some a) b p = keeps b a p

when-Kept :
    {B : Type 0} (P : B → Type 0) (c : Bool) (set : B → B) (b : B)
    → (c ≡ true → P b → P (set b))
    → P b
    → P (when c set b)
when-Kept P true set b keeps p = keeps refl p
when-Kept P false set b keeps p = p

module _ (rq : Reqwest) (P : rq.Builder → Type 0) (kept : Kept rq P) where
  -- Either check stays on, or switching it off keeps the property too.
  abbrev KeepsChecks : AgentConfig rq.IpAddr → Type 0
  KeepsChecks config =
      (config.reject_unauthorized ≡ false
        → (b : rq.Builder) → P b
        → P (rq.danger_accept_invalid_certs true b))
      × (config.reject_invalid_hostnames ≡ false
          → (b : rq.Builder) → P b
          → P (rq.danger_accept_invalid_hostnames true b))

  configured-Kept : (config : AgentConfig rq.IpAddr) → KeepsChecks config → P (configured rq config)
  unfolding configured
  configured-Kept config (certs, hosts) =
      with_option-Kept P rq.local_address kept.local_address config.local_address _ (
        when-Kept P (not config.reject_invalid_hostnames) (rq.danger_accept_invalid_hostnames true)
          _ (λ off. hosts (ground (arith, off)) _)
          (when-Kept P (not config.reject_unauthorized) (rq.danger_accept_invalid_certs true) _
            (λ off. certs (ground (arith, off)) _)
            (when-Kept P (not config.allow_h2) rq.http1_only _ (λ _. kept.http1_only _)
              (kept.redirect _ (redirect_policy rq config.max_redirections) (
                with_option-Kept P rq.pool_idle_timeout kept.pool_idle_timeout
                  config.pool_idle_timeout _
                  (with_option-Kept P rq.connect_timeout kept.connect_timeout config.connect_timeout
                    _
                    (with_option-Kept P rq.timeout kept.timeout config.timeout _
                      (kept.cookie_store _ false kept.fresh))))))))

  add_certificates-Kept :
      (certs : List rq.Certificate) (b : rq.Builder) → P b → P (add_certificates rq certs b)
  unfolding add_certificates
  add_certificates-Kept [] b p = p
  add_certificates-Kept (cert ∷ certs) b p =
      add_certificates-Kept certs _ (kept.add_root_certificate b cert p)

  add_bundles-Kept : (pems : List Text) (b : rq.Builder) → P b → Holds P (add_bundles rq pems b)
  unfolding add_bundles
  add_bundles-Kept [] b p = p
  add_bundles-Kept (pem ∷ pems) b p =
      Holds->>= P (or_error (codes "invalid CA certificate") (rq.from_pem_bundle pem)) _
        λ certs _. add_bundles-Kept pems _ (add_certificates-Kept certs b p)

  with_proxy-Kept : (proxy : ProxyConfig) (b : rq.Builder) → P b → Holds P (with_proxy rq proxy b)
  unfolding with_proxy
  with_proxy-Kept direct b p = kept.no_proxy b p
  with_proxy-Kept system b p = p
  with_proxy-Kept (custom uri headers auth) b p =
      Holds->>= P (map_err _ (rq.proxy_all uri)) _ λ proxy _.
        Holds->>= P (with_headers rq headers (with_auth rq auth proxy)) _
          λ full _. kept.proxy b full p

  happy_eyeballs-Kept :
      (b : rq.Builder) (enabled : Bool) → P b → P (configure_happy_eyeballs rq b enabled)
  unfolding configure_happy_eyeballs
  happy_eyeballs-Kept b true p = p
  happy_eyeballs-Kept b false p = kept.hickory_dns b false p

  client_builder-Kept :
      (config : AgentConfig rq.IpAddr) → KeepsChecks config → Holds P (client_builder rq config)
  unfolding client_builder
  client_builder-Kept config keeps =
      Holds->>= P (add_bundles rq config.ca (configured rq config)) _ λ trusting added.
        let trusted =
          Holds-ok P _ (add_bundles-Kept config.ca _ (configured-Kept config keeps)) added in
        Holds->>= P (with_proxy rq config.proxy trusting) _ λ routed set.
          happy_eyeballs-Kept routed config.auto_select_family
            (Holds-ok P _ (with_proxy-Kept config.proxy trusting trusted) set)

  -- The client is built from such a builder, and the defaults are those of the configuration.
  abbrev pub Built : AgentConfig rq.IpAddr → rq.Client × AgentDefaults → Type 0
  Built config agent =
      (b : rq.Builder) × (rq.build b ≡ ok agent.0)
      × P b
      × (agent.1.headers ≡ config.headers_timeout)
      × (agent.1.body ≡ config.body_timeout)
      × (agent.1.max_response_size ≡ config.max_response_size)

  -- An agent's client is built from a builder that has every property which a fresh builder has and
  -- all calls keep, where the call that accepts bad certificates need keep it only if the
  -- configuration does not reject them, and the call that accepts bad host names only if it does not
  -- reject those: each check stays on unless the configuration turns off that very check. The
  -- agent's defaults are those of the configuration.
  pub new_agent-Kept :
      (config : AgentConfig rq.IpAddr) (client : rq.Client) (defaults : AgentDefaults)
      → (config.reject_unauthorized ≡ false
          → (b : rq.Builder) → P b
          → P (rq.danger_accept_invalid_certs true b))
      → (config.reject_invalid_hostnames ≡ false
          → (b : rq.Builder) → P b
          → P (rq.danger_accept_invalid_hostnames true b))
      → new_agent rq config ≡ ok (client, defaults)
      → Built config (client, defaults)
  unfolding new_agent
  new_agent-Kept config client defaults certs hosts e =
      Holds-ok (Built config) (new_agent rq config)
        (Holds->>= (Built config) (client_builder rq config) _ λ b made.
          Holds->>= (Built config) (map_err (λ e. from_reqwest e false) (rq.build b)) _ λ _ built. (
            b,
            map_err-ok _ (rq.build b) built,
            Holds-ok P _ (client_builder-Kept config (certs, hosts)) made,
            refl,
            refl,
            refl,
          ))
        e
