-- ===== src/Node/Create/Limits.antt =====
-- packages/node/src/agent.rs: what is certain of a configuration that is read from JavaScript.
mod Parts
use node_reqwest.Prelude.{ℕ, ◌^◌, ◌<◌, ◌≡◌, Text, codes, Option}
use node_reqwest.Prelude.Outcome.{ok, ◌>>=◌, Holds, Holds->>=, Holds-ok}
use node_reqwest.Agent.{AgentConfig}
use node_reqwest.Agent.Build.{Reqwest}
use node_reqwest.Node.Js.{Js}
use node_reqwest.Node.FfiUtil.{opt_timeout_ms, opt_size}
use node_reqwest.Node.FfiUtil.Accepts.{Below, opt_timeout_ms-Below, opt_size-Below}
use node_reqwest.Node.Dispatch.{get_object}
use node_reqwest.Node.Create.{
  get_boolean, parse_proxy, max_redirections_of, pems_of, address_of, config_of,
}
use Parts.{
  PemsLimited, ProxyLimited, Redirections, max_redirections_of-Redirections,
  parse_proxy-ProxyLimited, pems_of-PemsLimited,
}

module _ (js : Js) (rq : Reqwest) (parse_ip : Text → Option rq.IpAddr) where
  -- Every number fits its type and every list is within its limit.
  abbrev pub Limited : AgentConfig rq.IpAddr → Type 0
  Limited config =
      Below js config.timeout
      × Below js config.headers_timeout
      × Below js config.body_timeout
      × Below js config.connect_timeout
      × Below js config.pool_idle_timeout
      × Below js config.max_response_size
      × (config.max_redirections < 2 ^ 32)
      × PemsLimited config.ca
      × ProxyLimited config.proxy

  config_of-Limited : (options : js.Value) → Holds Limited (config_of js rq parse_ip options)
  unfolding config_of
  config_of-Limited options =
      Holds->>= Limited (opt_timeout_ms js options (codes "timeout")) _ λ timeout t1.
        Holds->>= Limited (opt_timeout_ms js options (codes "headersTimeout")) _
          λ headers_timeout t2.
            Holds->>= Limited (opt_timeout_ms js options (codes "bodyTimeout")) _ λ body_timeout t3.
              Holds->>= Limited (opt_timeout_ms js options (codes "connectTimeout")) _
                λ connect_timeout t4.
                  Holds->>= Limited (opt_timeout_ms js options (codes "keepAliveTimeout")) _
                    λ keep_alive t5.
                      Holds->>= Limited (js.get options (codes "maxRedirections") >>= js.as_number)
                        _
                        λ redirections _.
                          Holds->>= Limited (max_redirections_of js redirections) _
                            λ max_redirections t6.
                              Holds->>= Limited (opt_size js options (codes "maxResponseSize")) _
                                λ max_response_size t7.
                                  Holds->>= Limited (get_boolean js options (codes "allowH2")) _
                                    λ allow_h2 _.
                                      Holds->>= Limited
                                        (get_boolean js options (codes "rejectUnauthorized")) _
                                        λ certs _.
                                          Holds->>= Limited
                                            (get_boolean js options
                                              (codes "rejectInvalidHostnames"))
                                            _
                                            λ hosts _.
                                              Holds->>= Limited
                                                (js.get options (codes "ca") >>= js.elements) _
                                                λ entries _.
                                                  Holds->>= Limited (pems_of js entries) _ λ ca t8.
                                                    Holds->>= Limited
                                                      (js.get options (codes "localAddress")) _
                                                      λ address _.
                                                        Holds->>= Limited
                                                          (address_of js rq parse_ip address) _
                                                          λ local_address _.
                                                            Holds->>= Limited
                                                            (get_boolean js options
                                                            (codes "autoSelectFamily"))
                                                            _
                                                            λ family _.
                                                            Holds->>= Limited
                                                            (get_object js options (codes "proxy"))
                                                            _
                                                            λ proxy_obj _.
                                                            Holds->>= Limited
                                                            (parse_proxy js proxy_obj) _
                                                            λ proxy t9. (
                                                            timeout_below (codes "timeout") t1,
                                                            timeout_below (codes "headersTimeout")
                                                            t2,
                                                            timeout_below (codes "bodyTimeout") t3,
                                                            timeout_below (codes "connectTimeout")
                                                            t4,
                                                            timeout_below (codes "keepAliveTimeout")
                                                            t5,
                                                            Holds-ok (Below js) _
                                                            (opt_size-Below js options
                                                            (codes "maxResponseSize"))
                                                            t7,
                                                            Holds-ok (Redirections js) _
                                                            (max_redirections_of-Redirections js
                                                            redirections)
                                                            t6,
                                                            Holds-ok PemsLimited _
                                                            (pems_of-PemsLimited js entries) t8,
                                                            Holds-ok ProxyLimited _
                                                            (parse_proxy-ProxyLimited js proxy_obj)
                                                            t9,
                                                            )
    where
      timeout_below :
          (key : Text) {o : Option ℕ} → opt_timeout_ms js options key ≡ ok o → Below js o
      timeout_below key e = Holds-ok (Below js) _ (opt_timeout_ms-Below js options key) e

  -- A configuration that is accepted from JavaScript keeps every limit: times and sizes below 2^64,
  -- redirections below 2^32, at most 32 certificate entries of at most 256 KiB each, and a custom
  -- proxy with a URI that is not empty and at most 64 headers.
  pub Limited-config_of :
      (options : js.Value) (config : AgentConfig rq.IpAddr)
      → config_of js rq parse_ip options ≡ ok config
      → Limited config
  Limited-config_of options config e = Holds-ok Limited _ (config_of-Limited options) e
