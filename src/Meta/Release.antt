-- ===== src/Meta/Release.antt =====
-- packages/meta/build.rs, src/lib.rs and src/bin/npm_version.rs, and packages/node/build.rs: from the
-- git tag to the version in package.json and in the addon's resource.
pub mod Tagged
use node_reqwest.Prelude.{Text, codes, Bool, Option, none, some, List}
use node_reqwest.Prelude.Outcome.{Result, ok, err, ◌>>=◌}
use node_reqwest.Meta.Version.{Version, Parsed, done, overflow, parse}
use node_reqwest.Meta.Describe.{World, Failure, get_version}
use node_reqwest.Meta.Package.{Json, Failed, npm_version}
use node_reqwest.Meta.Resource.{Setting, Build, cdylib_win_rc}

abbrev or_context : Text → Option Text → Result Failure Text
or_context context none = err context
or_context context (some value) = ok value

-- The text of an I/O error, if the step fails.
abbrev unless {ℓ} : {A : Type ℓ} → Option Failure → A → Result Failure A
unless none a = ok a
unless (some e) a = err e

-- `main` of packages/meta/build.rs: the directory and the content of `version.txt`. `write` is
-- `fs::write` of that file.
unfoldable pub build_main :
    World → Option Text → (Text → Text → Option Failure) → Result Failure (Text × Text)
unfolding get_version
build_main w out_dir write = do
  dir ← or_context (codes "OUT_DIR is set by cargo") out_dir
  version ← get_version w
  unless (write dir version) (dir, version)

-- `SEMVER`, of the text of `VERSION`, under a profile that checks overflow or does not
unfoldable pub semver : (overflow_checks : Bool) → Text → Parsed
unfolding parse
semver overflow_checks text = parse overflow_checks text

-- `SEMVER.unwrap_or_default()`, with the derived `Default`
abbrev pub unwrap_or_default : Option Version → Version
unwrap_or_default (some v) = v
unwrap_or_default none = record { major = 0; minor = 0; patch = 0 }

-- `main` of the npm_version binary
unfoldable pub npm_version_main :
    (json : Json) → Option Version → Option Text → (Text → Bool) → Result Failed Text
unfolding npm_version
npm_version_main json version file write = npm_version json (unwrap_or_default version) file write

-- `main` of packages/node/build.rs; `create_dir` is the error of `create_dir_all`, and neon's `Setup`
-- prints instructions for cargo only.
unfoldable pub addon_build :
    Option Failure → Option Version → Build → Result Failure (Option (List Setting))
unfolding cdylib_win_rc
addon_build create_dir version build = do
  dist ← unless create_dir (codes "dist")
  cdylib_win_rc build (codes "Node Reqwest") (unwrap_or_default version) (codes "node_reqwest.node")

-- A build of everything: the build script fails, the constant `SEMVER` does not evaluate, or both
-- programs run with it.
pub data Outcome : Type 0 where
  build_failed : Failure → Outcome
  not_constant : Outcome
  built : Result Failed Text → Result Failure (Option (List Setting)) → Outcome

module _ (json : Json) where
  -- The surroundings of the three programs.
  pub record Host : Type 0 where
    pub overflow_checks : Bool  -- of the cargo profile
    pub git : World
    pub out_dir : Option Text
    pub write_version : Text → Text → Option Failure
    pub package_json : Option Text
    pub write_package : Text → Bool
    pub create_dir : Option Failure
    pub build : Build

  run_with : Host → Parsed → Outcome
  unfolding npm_version_main addon_build
  run_with host overflow = not_constant
  run_with host (done version) =
      built (npm_version_main json version host.package_json host.write_package)
        (addon_build host.create_dir version host.build)

  unfoldable pub run_release : Host → Outcome
  unfolding build_main semver run_with
  run_release host = elim (build_main host.git host.out_dir host.write_version) [
    | err e ↦ build_failed e
    | ok written ↦ run_with host (semver host.overflow_checks written.1)
  ]
