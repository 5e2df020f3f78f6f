-- ===== src/Node/FfiUtil.antt =====
-- packages/node/src/ffi_util.rs: optional timeouts and sizes of an option object.
pub mod Accepts
use node_reqwest.Prelude.{ℕ, Text, codes, if◌then◌else◌, ◌||◌, Option, none, some, ◌++◌}
use node_reqwest.Prelude.Outcome.{Result, ok, err, ◌>>=◌}
use node_reqwest.Node.Js.{Js, Number, is_nan, is_zero, below_zero, is_nullish}

abbrev pub invalid : Text → Text → Text
invalid key reason = codes "invalid " ++ key ++ codes ": " ++ reason

module _ (js : Js) where
  js_number_to_u64 : Number → Text → Result js.Thrown ℕ
  js_number_to_u64 n key = elim (js.numbers.cast 64 n) [
    | some value ↦ ok value
    | none ↦ err (js.error (invalid key (codes "value out of u64 range")))
  ]

  size_of : Number → Text → Result js.Thrown (Option ℕ)
  unfolding js_number_to_u64
  size_of n key =
      if is_nan n || below_zero n
      then err (js.error (invalid key (codes "must be >= 0 or null")))
      else (js_number_to_u64 n key >>= λ value. ok (some value))

  timeout_of : Number → Text → Result js.Thrown (Option ℕ)
  unfolding js_number_to_u64
  timeout_of n key =
      if is_nan n || below_zero n
      then err (js.error (invalid key (codes "must be >= 0 or null")))
      else if is_zero n
      then err (js.error (invalid key (codes "0 is invalid; use null for no timeout")))
      else (js_number_to_u64 n key >>= λ value. ok (some value))

  unfoldable pub opt_timeout_ms : js.Value → Text → Result js.Thrown (Option ℕ)
  unfolding timeout_of
  opt_timeout_ms obj key = do
    v ← js.get obj key
    if is_nullish js v then ok none else (js.as_number v >>= λ n. timeout_of n key)

  unfoldable pub opt_size : js.Value → Text → Result js.Thrown (Option ℕ)
  unfolding size_of
  opt_size obj key = do
    v ← js.get obj key
    if is_nullish js v then ok none else (js.as_number v >>= λ n. size_of n key)
