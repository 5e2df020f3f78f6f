-- ===== src/Error/Codes.antt =====
-- packages/core/src/error.rs, `error_code`: the code identifies the variant.
use node_reqwest.Prelude.{
  ◌≡◌, refl, sym, ap, ◌∙◌, Text, codes, text_eq, if◌then◌else◌, Option, none, some, List, [], ◌∷◌,
  ◌↔◌,
}
use node_reqwest.Error.{
  CoreError, request_aborted, connect_timeout, headers_timeout, body_timeout, socket,
  headers_overflow, invalid_argument, client_destroyed, client_closed, not_supported, redirect,
  response_error, error_code,
}

-- The variants without their payloads.
pub data Variant : Type 0 where
  aborted connect_timed_out headers_timed_out body_timed_out at_socket overflown : Variant
  bad_argument destroyed closed unsupported redirected response : Variant

abbrev pub variant : CoreError → Variant
variant request_aborted = aborted
variant connect_timeout = connect_timed_out
variant headers_timeout = headers_timed_out
variant body_timeout = body_timed_out
variant (socket _) = at_socket
variant headers_overflow = overflown
variant (invalid_argument _) = bad_argument
variant client_destroyed = destroyed
variant client_closed = closed
variant (not_supported _) = unsupported
variant (redirect _) = redirected
variant (response_error _ _ _ _) = response

-- How a reader of the code finds the variant again.
lookup : Text → List (Text × Variant) → Option Variant
lookup s [] = none
lookup s ((code, v) ∷ table) = if text_eq code s then some v else lookup s table

decode : Text → Option Variant
unfolding lookup text_eq
decode s = lookup s (
    (codes "UND_ERR_ABORTED", aborted)
    ∷ (codes "UND_ERR_CONNECT_TIMEOUT", connect_timed_out)
    ∷ (codes "UND_ERR_HEADERS_TIMEOUT", headers_timed_out)
    ∷ (codes "UND_ERR_BODY_TIMEOUT", body_timed_out)
    ∷ (codes "UND_ERR_SOCKET", at_socket)
    ∷ (codes "UND_ERR_HEADERS_OVERFLOW", overflown)
    ∷ (codes "UND_ERR_INVALID_ARG", bad_argument)
    ∷ (codes "UND_ERR_DESTROYED", destroyed)
    ∷ (codes "UND_ERR_CLOSED", closed)
    ∷ (codes "UND_ERR_NOT_SUPPORTED", unsupported)
    ∷ (codes "UND_ERR_REDIRECT", redirected)
    ∷ (codes "UND_ERR_RESPONSE", response)
    ∷ [])

decode-error_code : (e : CoreError) → decode (error_code e) ≡ some (variant e)
unfolding decode error_code
decode-error_code request_aborted = refl
decode-error_code _ = refl

code_of : Variant → Text
code_of aborted = codes "UND_ERR_ABORTED"
code_of connect_timed_out = codes "UND_ERR_CONNECT_TIMEOUT"
code_of headers_timed_out = codes "UND_ERR_HEADERS_TIMEOUT"
code_of body_timed_out = codes "UND_ERR_BODY_TIMEOUT"
code_of at_socket = codes "UND_ERR_SOCKET"
code_of overflown = codes "UND_ERR_HEADERS_OVERFLOW"
code_of bad_argument = codes "UND_ERR_INVALID_ARG"
code_of destroyed = codes "UND_ERR_DESTROYED"
code_of closed = codes "UND_ERR_CLOSED"
code_of unsupported = codes "UND_ERR_NOT_SUPPORTED"
code_of redirected = codes "UND_ERR_REDIRECT"
code_of response = codes "UND_ERR_RESPONSE"

error_code-variant : (e : CoreError) → error_code e ≡ code_of (variant e)
unfolding code_of error_code
error_code-variant request_aborted = refl
error_code-variant _ = refl

-- Two errors have the same code exactly when they are of the same variant.
pub error_code_iff : (a b : CoreError) → (error_code a ≡ error_code b) ↔ (variant a ≡ variant b)
error_code_iff a b = (
  (λ e. cc (decode-error_code a, decode-error_code b, ap decode e)),
  (λ e. error_code-variant a ∙ ap code_of e ∙ sym (error_code-variant b)),
)
