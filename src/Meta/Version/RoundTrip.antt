-- ===== src/Meta/Version/RoundTrip.antt =====
-- packages/meta/src/lib.rs: a version tag that is printed is parsed back.
use node_reqwest.Prelude.{
  ◌≤◌, ◌≡◌, ◌∙◌, length, length-append, value_from-print, digits-print, length-print, print, some,
  inr, Bool, ◌∷◌, ◌++◌, arith,
}
use node_reqwest.Meta.Version.{Version, done, u64_max, to_string, parse}
use node_reqwest.Meta.Version.Dotted.{dotted, mod-small, parse-dotted}

-- For every version of 64-bit numbers, and whether or not overflow is checked, parsing its tag, a `v` before its printed form, gives the
-- version back.
pub parse-to_string :
    (checks : Bool) (v : Version)
    → v.major ≤ u64_max
    → v.minor ≤ u64_max
    → v.patch ≤ u64_max
    → parse checks (b'v' ∷ to_string v) ≡ done (some v)
unfolding to_string
parse-to_string checks v fa fb fc =
    parse-dotted checks (print v.major) (print v.minor) (print v.patch) (digits-print v.major)
      (digits-print v.minor) (digits-print v.patch) long (inr (rw (value_from-print v.major) fa))
      (inr (rw (value_from-print v.minor) fb)) (inr (rw (value_from-print v.patch) fc))
    ∙ rw (
      value_from-print v.major,
      value_from-print v.minor,
      value_from-print v.patch,
      mod-small v.major fa,
      mod-small v.minor fb,
      mod-small v.patch fc,
    )
  where
    long : 6 ≤ length (dotted (print v.major) (print v.minor) (print v.patch))
    long = omega (
      arith,
      length-print v.major,
      length-print v.minor,
      length-print v.patch,
      length-append (print v.major) (b'.' ∷ (print v.minor ++ (b'.' ∷ print v.patch))),
      length-append (print v.minor) (b'.' ∷ print v.patch),
    )
