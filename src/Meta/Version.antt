-- ===== src/Meta/Version.antt =====
-- packages/meta/src/lib.rs: `Version`, its `Display` and its parser.
pub mod Dotted
pub mod Accepts
pub mod RoundTrip
use node_reqwest.Prelude.{
  ℕ, zero, suc, ◌+◌, ◌-◌, ◌*◌, ◌%◌, ◌&&◌, Bool, Text, codes, print, length, leb, ltb, ◌==◌,
  if◌then◌else◌, ◌||◌, Option, none, some, [], ◌∷◌, ◌++◌,
}

pub record Version : Type 0 where
  pub major : ℕ  -- u64
  pub minor : ℕ  -- u64
  pub patch : ℕ  -- u64

unfoldable pub new : ℕ → ℕ → ℕ → Version
new major minor patch = record { major = major; minor = minor; patch = patch }

-- `write!(f, "{}.{}.{}", …)`
unfoldable pub to_string : Version → Text
to_string v = print v.major ++ (codes "." ++ (print v.minor ++ (codes "." ++ print v.patch)))

-- `overflow`: the arithmetic on `u64` exceeds the type under a profile with overflow checks, which
-- stops the constant evaluation. A profile without them, as the release profile is, wraps.
pub data Parsed : Type 0 where
  done : Option Version → Parsed
  overflow : Parsed

abbrev pub u64_max : ℕ
u64_max = 18446744073709551615

abbrev pub u64_modulus : ℕ
u64_modulus = 18446744073709551616

-- `version[segment]`, read and written; the loop runs while `segment` is below 3.
abbrev pub get_segment : ℕ → Version → ℕ
get_segment zero v = v.major
get_segment (suc zero) v = v.minor
get_segment (suc (suc _)) v = v.patch

abbrev pub set_segment : ℕ → ℕ → Version → Version
set_segment zero n v = record v { major = n }
set_segment (suc zero) n v = record v { minor = n }
set_segment (suc (suc _)) n v = record v { patch = n }

-- Behind the loop: `if segment != 2 { return None; }`.
pub finish : ℕ → Version → Parsed
finish segment v = if segment == 2 then done (some v) else done none

-- The `while` loop over the bytes from `offset` on.
pub parse_from : (overflow_checks : Bool) → Text → ℕ → Version → Parsed
unfolding finish
parse_from overflow_checks [] segment v = finish segment v
parse_from overflow_checks (b ∷ bytes) segment v =
    let n = get_segment segment v * 10 + (b - b'0') in
    let dot = parse_from overflow_checks bytes (segment + 1) v in
    let more = parse_from overflow_checks bytes segment (set_segment segment (n % u64_modulus) v) in
    if leb 3 segment
    then finish segment v
    else if b == b'.'
    then dot
    else if ltb b b'0' || ltb b'9' b
    then done none
    else if overflow_checks && ltb u64_max n
    then overflow
    else more

pub parse_bytes : (overflow_checks : Bool) → ℕ → Text → Parsed
unfolding parse_from
parse_bytes overflow_checks len [] = done none
parse_bytes overflow_checks len (b ∷ bytes) =
    if ltb len 6
    then done none
    else if b == b'v'
    then parse_from overflow_checks bytes 0 (record { major = 0; minor = 0; patch = 0 })
    else done none

-- `bytes.len() < 6 || bytes[0] != b'v'`, then the loop from offset 1.
unfoldable pub parse : (overflow_checks : Bool) → Text → Parsed
unfolding parse_bytes
parse overflow_checks s = parse_bytes overflow_checks (length s) s
