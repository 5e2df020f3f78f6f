-- ===== src/Error/Examples.antt =====
-- packages/core/src/error.rs at concrete errors.
use node_reqwest.Prelude.{◌≤◌, ◌≡◌, refl, codes, length, true, false, none, [], ◌∷◌}
use node_reqwest.Error.{client_closed, to_string}
use node_reqwest.Error.Message.{cap_message_len, error_chain, max_message_len}
use node_reqwest.Error.Message.Utf8.{encode, fit}
use node_reqwest.Error.Message.Cap.{cap_message_len-encode}
use node_reqwest.Error.Message.Chain.{error_chain-described}
use node_reqwest.Error.Reqwest.{ReqwestError, from_reqwest}
use node_reqwest.Error.Reqwest.Classify.{message, length-from_reqwest}

cap_message_len-encode_example :
    cap_message_len (encode (0x1F480 ∷ 0x41 ∷ []))
    ≡ encode (fit max_message_len (0x1F480 ∷ 0x41 ∷ []))
cap_message_len-encode_example = cap_message_len-encode (0x1F480 ∷ 0x41 ∷ [])

error_chain-described_example :
    error_chain ([] ∷ codes "tcp" ∷ codes "refused" ∷ []) ≡ codes "tcp; refused"
error_chain-described_example = error_chain-described ([] ∷ codes "tcp" ∷ codes "refused" ∷ [])

-- A timeout while the body is read.
abbrev late : ReqwestError
late = record {
  is_timeout = true;
  is_connect = false;
  is_redirect = false;
  is_status = false;
  is_body = true;
  is_decode = false;
  is_builder = false;
  status = none;
  display = codes "operation timed out";
  sources = [];
}

length-from_reqwest_example : length (message (from_reqwest late true)) ≤ max_message_len
length-from_reqwest_example = length-from_reqwest late true

closed_text : to_string client_closed ≡ codes "The client is closed"
unfolding to_string
closed_text = refl
