-- ===== src/Dispatcher.antt =====
-- packages/core/src/dispatcher.rs: the request's options, the response's start, the pause signal and
-- the caller's controller of a request.
pub mod Method
pub mod Pause
pub mod Controller
mod Examples
use node_reqwest.Prelude.{ℕ, Text, codes, Option, none, []}
use node_reqwest.Error.{Headers}

abbrev pub max_headers : ℕ
max_headers = 256

-- The method and the body are values of the HTTP crates.
pub record DispatchOptions (Method Body : Type 0) : Type 0 where
  pub origin : Option Text
  pub path : Text
  pub query : Text
  pub method : Method
  pub headers : Headers
  pub body : Option Body
  pub headers_timeout_ms : Option ℕ
  pub body_timeout_ms : Option ℕ
  pub connect_timeout_ms : Option ℕ

-- `DispatchOptions::default()`, given `Method::GET`.
unfoldable pub default_options : {Method Body : Type 0} → Method → DispatchOptions Method Body
default_options get = record {
  origin = none;
  path = codes "/";
  query = [];
  method = get;
  headers = [];
  body = none;
  headers_timeout_ms = none;
  body_timeout_ms = none;
  connect_timeout_ms = none;
}

pub record ResponseStart : Type 0 where
  pub status_code : ℕ
  pub status_message : Text
  pub headers : Headers
