-- ===== src/Dispatcher/Method.antt =====
-- packages/core/src/dispatcher.rs, `parse_method`.
pub mod Laws
use node_reqwest.Prelude.{
  ℕ, ◌+◌, ◌-◌, ◌≡◌, ◌↔◌, refl, Text, codes, text_eq, text_eq_iff, leb, if◌then◌else◌, Bool, true,
  ◌&&◌, ◌||◌, Option, none, some, map,
}
use node_reqwest.Prelude.Outcome.{Result, ok, err, ◌>>=◌}
use node_reqwest.Error.{CoreError, invalid_argument, not_supported}

-- `http::Method`: validated method names, with equality and the two names that are singled out.
pub record MethodApi : Type 1 where
  pub Method : Type 0
  pub from_bytes : Text → Option Method
  pub as_str : Method → Text
  pub method_eq : Method → Method → Bool
  pub connect : Method
  pub trace : Method
  pub method_eq_iff : (a b : Method) → (method_eq a b ≡ true) ↔ (a ≡ b)
  pub as_str-from_bytes : (s : Text) (m : Method) → from_bytes s ≡ some m → as_str m ≡ s
  pub from_bytes-connect : from_bytes (codes "CONNECT") ≡ some connect
  pub from_bytes-trace : from_bytes (codes "TRACE") ≡ some trace

-- `str::to_ascii_uppercase`
abbrev pub upper : ℕ → ℕ
upper b = if leb b'a' b && leb b b'z' then b - 32 else b

unfoldable pub to_ascii_uppercase : Text → Text
to_ascii_uppercase = map upper

abbrev pub lower : ℕ → ℕ
lower b = if leb b'A' b && leb b b'Z' then b + 32 else b

-- `str::to_ascii_lowercase`
abbrev pub to_ascii_lowercase : Text → Text
to_ascii_lowercase = map lower

module _ (api : MethodApi) where
  from_upper : Option api.Method → Result CoreError api.Method
  from_upper none = err (invalid_argument (codes "invalid HTTP method"))
  from_upper (some m) =
      if api.method_eq m api.connect || api.method_eq m api.trace
      then err (not_supported (codes "CONNECT/TRACE not supported"))
      else ok m

  unfoldable pub parse_method : Text → Result CoreError api.Method
  unfolding from_upper to_ascii_uppercase
  parse_method name = from_upper (api.from_bytes (to_ascii_uppercase name))

-- Every text a method that prints as itself.
pub plain-as_str : (s m : Text) → some s ≡ some m → m ≡ s
plain-as_str s m e = cc

abbrev pub plain_methods : MethodApi
plain_methods = record {
  Method = Text;
  from_bytes = λ s. some s;
  as_str = λ m. m;
  method_eq = text_eq;
  connect = codes "CONNECT";
  trace = codes "TRACE";
  method_eq_iff = text_eq_iff;
  as_str-from_bytes = plain-as_str;
  from_bytes-connect = refl;
  from_bytes-trace = refl;
}
