-- ===== src/Error/Reqwest.antt =====
-- packages/core/src/error.rs, `CoreError::from_reqwest`.
pub mod Classify
use node_reqwest.Prelude.{
  ℕ, Text, codes, if◌then◌else◌, Bool, true, false, ◌||◌, Option, none, some, List, [], ◌++◌,
}
use node_reqwest.Error.{
  CoreError, connect_timeout, headers_timeout, body_timeout, socket, invalid_argument, redirect,
  response_error,
}
use node_reqwest.Error.Message.{cap_message_len, error_chain}

-- What the code asks a `reqwest::Error`, with the texts of its `source()` chain.
pub record ReqwestError : Type 0 where
  pub is_timeout : Bool
  pub is_connect : Bool
  pub is_redirect : Bool
  pub is_status : Bool
  pub is_body : Bool
  pub is_decode : Bool
  pub is_builder : Bool
  pub status : Option ℕ
  pub display : Text
  pub sources : List Text

-- The checks behind the one for a status, the last three of the function.
from_transport : ReqwestError → CoreError
from_transport err =
    if err.is_body || err.is_decode
    then socket (cap_message_len err.display)
    else if err.is_builder
    then invalid_argument (cap_message_len err.display)
    else socket (cap_message_len err.display)

-- `if err.is_status() && let Some(status) = err.status()`
from_status : Bool → Option ℕ → ReqwestError → CoreError
unfolding from_transport
from_status true (some status) err = response_error status (cap_message_len err.display) none []
from_status true none err = from_transport err
from_status false _ err = from_transport err

unfoldable pub from_reqwest : ReqwestError → Bool → CoreError
unfolding from_status
from_reqwest err in_body_phase =
    if err.is_timeout
    then (if err.is_connect
        then connect_timeout
        else if in_body_phase
        then body_timeout
        else headers_timeout)
    else if err.is_redirect
    then redirect (cap_message_len err.display)
    else if err.is_connect
    then socket (
        cap_message_len
          (codes "Connect error: " ++ err.display ++ codes "; source: " ++ error_chain err.sources))
    else from_status err.is_status err.status err
