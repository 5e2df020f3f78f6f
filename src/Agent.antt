-- ===== src/Agent.antt =====
-- packages/core/src/agent.rs: the agent's configuration. Durations are in milliseconds.
pub mod Request
pub mod Lifecycle
pub mod World
pub mod Build
use node_reqwest.Prelude.{ℕ, Text, Bool, true, Option, none, List, []}

pub record ProxyAuth : Type 0 where
  pub username : Text
  pub password : Text

pub data ProxyConfig : Type 0 where
  direct : ProxyConfig  -- `ProxyConfig::None`
  system : ProxyConfig
  custom : (uri : Text) (headers : List (Text × Text)) (auth : Option ProxyAuth) → ProxyConfig

-- An IP address is a value of the standard library.
pub record AgentConfig (IpAddr : Type 0) : Type 0 where
  pub timeout : Option ℕ
  pub connect_timeout : Option ℕ
  pub headers_timeout : Option ℕ
  pub body_timeout : Option ℕ
  pub pool_idle_timeout : Option ℕ
  pub max_redirections : ℕ
  pub allow_h2 : Bool
  pub auto_select_family : Bool
  pub reject_unauthorized : Bool
  pub reject_invalid_hostnames : Bool
  pub ca : List Text
  pub local_address : Option IpAddr
  pub max_response_size : Option ℕ
  pub proxy : ProxyConfig

unfoldable pub default_config : {IpAddr : Type 0} → AgentConfig IpAddr
default_config = record {
  timeout = none;
  connect_timeout = none;
  headers_timeout = none;
  body_timeout = none;
  pool_idle_timeout = none;
  max_redirections = 0;
  allow_h2 = true;
  auto_select_family = true;
  reject_unauthorized = true;
  reject_invalid_hostnames = true;
  ca = [];
  local_address = none;
  max_response_size = none;
  proxy = direct;
}

pub record AgentDefaults : Type 0 where
  pub headers : Option ℕ
  pub body : Option ℕ
  pub max_response_size : Option ℕ
