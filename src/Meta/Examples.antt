-- ===== src/Meta/Examples.antt =====
-- packages/meta/src/lib.rs at concrete tags.
use node_reqwest.Prelude.{
  [], text_eq, ◌≤◌, ◌≡◌, ◌↔◌, refl, true, false, Text, codes, length, none, some, ◌∷◌, List, print,
  arith,
}
use node_reqwest.Prelude.Outcome.{ok}
use node_reqwest.Prelude.Maps.{insert_key}
use node_reqwest.Meta.Plain.{Plain, string, end, entry, plain_json}
use node_reqwest.Meta.Package.{new_content, npm_version}
use node_reqwest.Meta.Package.Updates.{Updated, Updated-new_content}
use node_reqwest.Meta.Describe.{World, failed, printed, rerun_if_git_ref_changed, get_version}
use node_reqwest.Meta.Resource.{Setting, settings, version_hex, cdylib_win_rc}
use node_reqwest.Meta.Resource.Stamps.{Stamped, cdylib_win_rc-Stamped}
use node_reqwest.Meta.Release.{
  Host, built, build_main, semver, npm_version_main, addon_build, run_release,
}
use node_reqwest.Meta.Release.Tagged.{Released, tagged-Released, untagged-Released}
use node_reqwest.Meta.Version.{Version, to_string, done, overflow, parse}
use node_reqwest.Meta.Version.Accepts.{AcceptedMajor, parse_iff}

abbrev release : Version
release = record { major = 1; minor = 0; patch = 82 }

release_text : to_string release ≡ codes "1.0.82"
unfolding to_string print
release_text = refl

parse_iff_example : (parse true (codes "v1.0.82") ≡ done (some release)) ↔ (
    (6 ≤ length (codes "v1.0.82"))
    × ((xs : Text) × (codes "v1.0.82" ≡ b'v' ∷ xs) × AcceptedMajor true xs 0 release))
parse_iff_example = parse_iff true (codes "v1.0.82") release

described_tag : parse false (codes "v1.0.81-2-ge6a4f89") ≡ done none
unfolding parse
described_tag = refl

commit_hash : parse false (codes "c24f925") ≡ done none
unfolding parse
commit_hash = refl

-- Empty runs are accepted.
empty_runs : parse true (codes "v1..22") ≡ done (some (record { major = 1; minor = 0; patch = 22 }))
unfolding parse
empty_runs = refl

-- 2^64 + 1 wraps where overflow is not checked, and stops the evaluation where it is.
wraps :
    parse false (codes "v18446744073709551617.0.0")
    ≡ done (some (record { major = 1; minor = 0; patch = 0 }))
unfolding parse
wraps = refl

stops : parse true (codes "v18446744073709551617.0.0") ≡ overflow
unfolding parse
stops = refl

-- A checkout without a tag.
abbrev checkout : World
checkout = record {
  git_status = some true;
  git_branch = some (printed (some (codes "main")));
  git_describe = some failed;
  git_rev_parse = some (printed (some (codes "c24f925")));
  exists = λ _. true;
  trim = λ s. s;
}

checkout_version : get_version checkout ≡ ok (codes "c24f925")
unfolding get_version rerun_if_git_ref_changed
checkout_version = refl

-- `{ "version": "0.1.0" }`
abbrev package_json : Plain
package_json = entry (codes "version") (string (codes "0.1.0")) end

package_updated : new_content plain_json release (some (codes "0.1.0\n")) ≡ ok (codes "1.0.82\n")
unfolding new_content insert_key to_string print text_eq
package_updated = refl

Updated-new_content_example :
    Updated plain_json release ((codes "version", string (codes "0.1.0")) ∷ []) (codes "1.0.82\n")
Updated-new_content_example =
    Updated-new_content plain_json release (codes "0.1.0\n") (codes "1.0.82\n") package_json
      ((codes "version", string (codes "0.1.0")) ∷ []) refl refl package_updated

-- The packed word of 1.0.82, and its text.
release_hex : version_hex release ≡ 0x0001000000520000
unfolding version_hex
release_hex = refl

-- A build host whose tree git describes by this text.
abbrev host_at : Text → Host plain_json
host_at described = record {
  overflow_checks = false;
  git = record checkout { git_describe = some (printed (some described)) };
  out_dir = some (codes "out");
  write_version = λ _ _. none;
  package_json = some (codes "0.1.0\n");
  write_package = λ _. true;
  create_dir = none;
  build = record {
    msvc = true;
    package_name = some (codes "node");
    year = 2026;
    compile = λ _. true;
  };
}

abbrev resource_of : Version → List Setting
resource_of v = settings (codes "Node Reqwest") (codes "node") (codes "node_reqwest.node") 2026 v

cdylib_win_rc-Stamped_example : Stamped release (resource_of release)
unfolding cdylib_win_rc
cdylib_win_rc-Stamped_example =
    cdylib_win_rc-Stamped (host_at (codes "v1.0.82")).build (codes "Node Reqwest") release
      (codes "node_reqwest.node") (resource_of release) (omega arith, omega arith, omega arith) refl

tag_printed : b'v' ∷ to_string release ≡ codes "v1.0.82"
unfolding to_string print
tag_printed = refl

tag_found : get_version (host_at (codes "v1.0.82")).git ≡ ok (b'v' ∷ to_string release)
unfolding get_version rerun_if_git_ref_changed to_string print
tag_found = refl

tag_built :
    run_release plain_json (host_at (codes "v1.0.82"))
    ≡ built (ok (codes "1.0.82\n")) (ok (some (resource_of release)))
unfolding run_release get_version rerun_if_git_ref_changed to_string print parse new_content
    insert_key text_eq build_main semver npm_version_main addon_build npm_version cdylib_win_rc
tag_built = refl

tagged-Released_example :
    Released plain_json (host_at (codes "v1.0.82")) release (codes "1.0.82\n") (resource_of release)
tagged-Released_example =
    tagged-Released plain_json (host_at (codes "v1.0.82")) (codes "0.1.0\n") (codes "1.0.82\n")
      package_json ((codes "version", string (codes "0.1.0")) ∷ []) (resource_of release) refl refl
      refl tag_built release (omega arith, omega arith, omega arith) tag_found

-- A build some commits behind a tag.
abbrev unreleased : Version
unreleased = record { major = 0; minor = 0; patch = 0 }

abbrev between : Host plain_json
between = host_at (codes "v1.0.81-2-ge6a4f89")

between_found : get_version between.git ≡ ok (codes "v1.0.81-2-ge6a4f89")
unfolding get_version rerun_if_git_ref_changed
between_found = refl

between_built :
    run_release plain_json between
    ≡ built (ok (codes "0.0.0\n")) (ok (some (resource_of unreleased)))
unfolding run_release get_version rerun_if_git_ref_changed to_string print parse new_content
    insert_key text_eq build_main semver npm_version_main addon_build npm_version cdylib_win_rc
between_built = refl

untagged-Released_example :
    Released plain_json between unreleased (codes "0.0.0\n") (resource_of unreleased)
untagged-Released_example =
    untagged-Released plain_json between (codes "0.1.0\n") (codes "0.0.0\n") package_json
      ((codes "version", string (codes "0.1.0")) ∷ []) (resource_of unreleased) refl refl refl
      between_built (codes "v1.0.81-2-ge6a4f89") between_found described_tag
