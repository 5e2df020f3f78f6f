-- ===== src/Error/Reqwest/Classify.antt =====
-- packages/core/src/error.rs, `CoreError::from_reqwest`: what each error becomes.
use node_reqwest.Prelude.{
  ◌≤◌, ◌≡◌, ◌≢◌, ◌↔◌, Text, codes, length, Bool, true, false, [], ◌++◌, arith,
}
use node_reqwest.Error.{
  CoreError, socket, invalid_argument, not_supported, redirect, response_error,
}
use node_reqwest.Error.Message.{error_chain, max_message_len}
use node_reqwest.Error.Message.Cap.{length-cap_message_len}
use node_reqwest.Error.Reqwest.{ReqwestError, from_reqwest}

-- The text that a variant carries; the empty text where it carries none.
abbrev pub message : CoreError → Text
message (socket m) = m
message (invalid_argument m) = m
message (not_supported m) = m
message (redirect m) = m
message (response_error _ m _ _) = m
message _ = []

-- Whatever `reqwest` reports, and however long its texts, the message of the error is capped.
pub length-from_reqwest :
    (err : ReqwestError) (in_body_phase : Bool)
    → length (message (from_reqwest err in_body_phase)) ≤ max_message_len
unfolding from_reqwest
length-from_reqwest err in_body_phase = ground (
  arith,
  length-cap_message_len err.display,
  length-cap_message_len
      (codes "Connect error: " ++ err.display ++ codes "; source: " ++ error_chain err.sources),
)

-- The phase makes a difference exactly for a timeout that is not one of connecting.
pub from_reqwest-phase_iff :
    (err : ReqwestError)
    → (from_reqwest err true ≢ from_reqwest err false)
      ↔ ((err.is_timeout ≡ true) × (err.is_connect ≡ false))
unfolding from_reqwest
from_reqwest-phase_iff err = (λ h. ground arith, λ h e. ground arith)
