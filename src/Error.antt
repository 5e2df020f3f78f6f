-- ===== src/Error.antt =====
-- packages/core/src/error.rs: the error values that cross the FFI boundary.
pub mod Message
pub mod Reqwest
pub mod Codes
mod Examples
use node_reqwest.Prelude.{ℕ, Text, codes, Option, none, some, List, ◌++◌}

-- `HashMap<String, Vec<String>>`, in the order in which it is walked.
abbrev pub Headers : Type 0
Headers = List (Text × List Text)

pub data CoreError : Type 0 where
  request_aborted connect_timeout headers_timeout body_timeout : CoreError
  socket : Text → CoreError
  headers_overflow : CoreError
  invalid_argument : Text → CoreError
  client_destroyed client_closed : CoreError
  not_supported redirect : Text → CoreError
  response_error :
      (status_code : ℕ) (message : Text) (body : Option Text) (headers : Headers) → CoreError

-- `Display`, from the `#[error]` attributes.
unfoldable pub to_string : CoreError → Text
to_string request_aborted = codes "Request aborted"
to_string connect_timeout = codes "Connect timeout"
to_string headers_timeout = codes "Headers timeout"
to_string body_timeout = codes "Body timeout"
to_string (socket m) = codes "Socket error: " ++ m
to_string headers_overflow = codes "Headers overflow"
to_string (invalid_argument m) = codes "Invalid argument: " ++ m
to_string client_destroyed = codes "The client is destroyed"
to_string client_closed = codes "The client is closed"
to_string (not_supported m) = codes "Not supported: " ++ m
to_string (redirect m) = codes "Redirect error: " ++ m
to_string (response_error _ message _ _) = message

unfoldable pub error_code : CoreError → Text
error_code request_aborted = codes "UND_ERR_ABORTED"
error_code connect_timeout = codes "UND_ERR_CONNECT_TIMEOUT"
error_code headers_timeout = codes "UND_ERR_HEADERS_TIMEOUT"
error_code body_timeout = codes "UND_ERR_BODY_TIMEOUT"
error_code (socket _) = codes "UND_ERR_SOCKET"
error_code headers_overflow = codes "UND_ERR_HEADERS_OVERFLOW"
error_code (invalid_argument _) = codes "UND_ERR_INVALID_ARG"
error_code client_destroyed = codes "UND_ERR_DESTROYED"
error_code client_closed = codes "UND_ERR_CLOSED"
error_code (not_supported _) = codes "UND_ERR_NOT_SUPPORTED"
error_code (redirect _) = codes "UND_ERR_REDIRECT"
error_code (response_error _ _ _ _) = codes "UND_ERR_RESPONSE"

unfoldable pub status_code : CoreError → Option ℕ
status_code (response_error status _ _ _) = some status
status_code _ = none
