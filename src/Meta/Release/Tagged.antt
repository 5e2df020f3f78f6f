-- ===== src/Meta/Release/Tagged.antt =====
-- packages/meta and packages/node/build.rs: the version that a build of a tag, and of none, carries.
use node_reqwest.Prelude.{
  ◌≡◌, Bool, true, false, subst, ap, ◌∙◌, sym, Text, codes, text_eq, Option, none, some, List, ◌∷◌,
  arith,
}
use node_reqwest.Prelude.Outcome.{Result, ok, err, Holds, Holds->>=, ◌>>=◌}
use node_reqwest.Prelude.Maps.{find}
use node_reqwest.Meta.Version.{Version, done, parse, to_string}
use node_reqwest.Meta.Version.RoundTrip.{parse-to_string}
use node_reqwest.Meta.Describe.{World, Failure, get_version}
use node_reqwest.Meta.Package.{Json, Failed, new_content, npm_version, or_failed, to_write}
use node_reqwest.Meta.Package.Updates.{Updated-new_content}
use node_reqwest.Meta.Resource.{Setting, cdylib_win_rc}
use node_reqwest.Meta.Resource.Word.{Fits}
use node_reqwest.Meta.Resource.Stamps.{Stamped, cdylib_win_rc-Stamped}
use node_reqwest.Meta.Release.{
  Host, or_context, unless, build_failed, built, run_release, build_main, run_with, semver,
  npm_version_main, addon_build, unwrap_or_default,
}

build_main-text :
    (w : World) (out_dir : Option Text) (write : Text → Text → Option Failure) (text : Text)
    → get_version w ≡ ok text
    → Holds (λ written. written.1 ≡ text) (build_main w out_dir write)
unfolding build_main
build_main-text w out_dir write text found =
    Holds->>= (λ written. written.1 ≡ text) (or_context _ out_dir) _
      λ dir _.
        Holds->>= (λ written. written.1 ≡ text) (get_version w) _
          λ version is. unless-Holds (write dir version) (dir, version) (cc (found, is))
  where
    unless-Holds :
        (o : Option Failure) (a : Text × Text) → a.1 ≡ text → Holds (λ r. r.1 ≡ text) (unless o a)
    unless-Holds none a h = h
    unless-Holds (some e) a h = tt

module _ (json : Json) (host : Host json) where
  -- What the build goes on with once the build script has written the version text.
  run_release-run_with :
      (text : Text) (content : Result Failed Text)
      (resource : Result Failure (Option (List Setting)))
      → get_version host.git ≡ ok text
      → run_release json host ≡ built content resource
      → run_with json host (parse host.overflow_checks text) ≡ built content resource
  unfolding run_release semver
  run_release-run_with text content resource found =
      go (build_main host.git host.out_dir host.write_version)
        (build_main-text host.git host.out_dir host.write_version text found)
    where
      go :
          (r : Result Failure (Text × Text))
          → Holds (λ written. written.1 ≡ text) r
          → (elim r [
            | err e ↦ build_failed e
            | ok written ↦ run_with json host (semver host.overflow_checks written.1)
          ])
            ≡ built content resource
          → run_with json host (parse host.overflow_checks text) ≡ built content resource
      go (err e) h eq = cc
      go (ok written) h eq =
          ap (λ t. run_with json host (parse host.overflow_checks t)) (sym h) ∙ eq

  npm_version_main-new_content :
      (o : Option Version) (text : Text)
      → npm_version_main json o host.package_json host.write_package ≡ ok text
      → new_content json (unwrap_or_default o) host.package_json ≡ ok text
  unfolding npm_version_main npm_version
  npm_version_main-new_content o text =
      go (new_content json (unwrap_or_default o) host.package_json)
    where
      checked :
          (t : Text) (b : Bool)
          → or_failed to_write (elim b [ true ↦ some t | false ↦ none ]) ≡ ok text
          → ◌≡◌ {A = Result Failed Text} (ok t) (ok text)
      checked t true e = e
      checked t false e = cc

      go :
          (r : Result Failed Text)
          → (r >>= λ t.
              or_failed to_write (elim (host.write_package t) [ true ↦ some t | false ↦ none ]))
            ≡ ok text
          → r ≡ ok text
      go (err e) h = cc
      go (ok t) h = checked t (host.write_package t) h

  addon_build-cdylib_win_rc :
      (semver : Option Version) (made : Option (List Setting))
      → addon_build host.create_dir semver host.build ≡ ok made
      → cdylib_win_rc host.build
          (codes "Node Reqwest")
          (unwrap_or_default semver)
          (codes "node_reqwest.node")
        ≡ ok made
  unfolding addon_build
  addon_build-cdylib_win_rc semver made = go host.create_dir
    where
      go :
          (o : Option Failure)
          → (unless o (codes "dist") >>= λ dist.
              cdylib_win_rc host.build
                (codes "Node Reqwest")
                (unwrap_or_default semver)
                (codes "node_reqwest.node"))
            ≡ ok made
          → cdylib_win_rc host.build
              (codes "Node Reqwest")
              (unwrap_or_default semver)
              (codes "node_reqwest.node")
            ≡ ok made
      go none h = h
      go (some e) h = cc

  -- Both artifacts carry this version: package.json, as it is read again, and the resource.
  abbrev pub Released : Version → Text → List Setting → Type 0
  Released v text made =
      ((value : json.Value) × (entries : List (Text × json.Value)) × (json.from_str text
          ≡ some value)
        × (json.as_object value ≡ some entries)
        × (find (codes "version") entries ≡ some (json.string (to_string v))))
      × Stamped v made

  module _ (content text : Text) (value : json.Value) (entries : List (Text × json.Value))
      (made : List Setting) (file : host.package_json ≡ some content)
      (parsed : json.from_str content ≡ some value) (object : json.as_object value ≡ some entries)
      (e : run_release json host ≡ built (ok text) (ok (some made))) where
    run-Released :
        (o : Option Version) (version : Text)
        → Fits (unwrap_or_default o)
        → get_version host.git ≡ ok version
        → parse host.overflow_checks version ≡ done o
        → Released (unwrap_or_default o) text made
    unfolding run_with text_eq
    run-Released o version fits found is =
        let ran =
          subst (λ p. run_with json host p ≡ built (ok text) (ok (some made))) is
            (run_release-run_with version (ok text) (ok (some made)) found e) in
        let npm : npm_version_main json o host.package_json host.write_package ≡ ok text = cc ran in
        let addon : addon_build host.create_dir o host.build ≡ ok (some made) = cc ran in
        let (new, after, read, holds, finds, again) =
          Updated-new_content json (unwrap_or_default o) content text value entries parsed object (
            ap (new_content json (unwrap_or_default o)) (sym file)
            ∙ npm_version_main-new_content o text npm) in
        (
          (new, after, read, holds, finds (codes "version")),
          cdylib_win_rc-Stamped host.build (codes "Node Reqwest") (unwrap_or_default o)
              (codes "node_reqwest.node") made fits (addon_build-cdylib_win_rc o (some made) addon),
        )

    -- A build of the tag of a version, a `v` before its printed form, that runs to its end carries
    -- that version in both of its artifacts: the `version` of package.json is the tag without the
    -- `v`, and the resource of the addon has the three numbers, where they fit its 16-bit fields.
    pub tagged-Released :
        (v : Version)
        → Fits v
        → get_version host.git ≡ ok (b'v' ∷ to_string v)
        → Released v text made
    tagged-Released v fits tag = run-Released (some v) (b'v' ∷ to_string v) fits tag (
        parse-to_string host.overflow_checks v (omega (arith, fits.0)) (omega (arith, fits.1))
          (omega (arith, fits.1)))

    -- A build whose version text is not accepted as a version, such as a commit hash, a tag with a
    -- suffix or the text of a tree that git does not know, carries 0.0.0 in both.
    pub untagged-Released :
        (version : Text)
        → get_version host.git ≡ ok version
        → parse host.overflow_checks version ≡ done none
        → Released (record { major = 0; minor = 0; patch = 0 }) text made
    untagged-Released version found is =
        run-Released none version (omega arith, omega arith, omega arith) found is
