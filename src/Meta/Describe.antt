-- ===== src/Meta/Describe.antt =====
-- packages/meta/build.rs: the version text that the build takes from git.
pub mod Laws
use node_reqwest.Prelude.{
  Text, codes, is_empty, if◌then◌else◌, Bool, false, Option, none, some, List, [], ◌∷◌, ◌++◌,
}
use node_reqwest.Prelude.Outcome.{Result, ok, err, ◌>>=◌}

-- A process that ran: it failed, or it printed an output, which is `none` unless it is UTF-8.
pub data Output : Type 0 where
  failed : Output
  printed : (stdout : Option Text) → Output

-- `anyhow::Error` with its context
abbrev pub Failure : Type 0
Failure = Text

-- The processes that the build may start, and the files that it asks for. `none` is a process that
-- cannot be run; `trim` is `str::trim`.
pub record World : Type 0 where
  pub git_status : Option Bool
  pub git_branch : Option Output
  pub git_describe : Option Output
  pub git_rev_parse : Option Output
  pub exists : Text → Bool
  pub trim : Text → Text

-- What the three functions that read an output have in common, with the text of a failed start.
output_text : (Text → Text) → Text → Option Output → Result Failure (Option Text)
output_text trim context none = err context
output_text trim context (some failed) = ok none
output_text trim context (some (printed none)) = err (codes "valid UTF-8")
output_text trim context (some (printed (some text))) =
    if is_empty (trim text) then ok none else ok (some (trim text))

module _ (w : World) where
  valid_git_repo : Bool
  valid_git_repo = elim w.git_status [ none ↦ false | some success ↦ success ]

  git_branch_show_current : Result Failure (Option Text)
  unfolding output_text
  git_branch_show_current =
      output_text w.trim (codes "Failed to run `git branch --show-current`") w.git_branch

  git_describe_tags : Result Failure (Option Text)
  unfolding output_text
  git_describe_tags =
      output_text w.trim (codes "Failed to run `git describe --tags`") w.git_describe

  git_rev_parse_commit_hash : Result Failure (Option Text)
  unfolding output_text
  git_rev_parse_commit_hash =
      output_text w.trim (codes "Failed to run `git rev-parse --short HEAD^{commit}`")
        w.git_rev_parse

  -- The paths printed with `cargo:rerun-if-changed`.
  watched : Text → List Text
  watched path = if w.exists path then path ∷ [] else []

  unfoldable pub rerun_if_git_ref_changed : Result Failure (List Text)
  unfolding git_branch_show_current watched
  rerun_if_git_ref_changed = git_branch_show_current >>= λ branch. ok (
      watched (codes "../../.git/HEAD")
      ++ elim branch [ none ↦ [] | some name ↦ watched (codes "../../.git/refs/heads/" ++ name) ]
      ++ watched (codes "../../.git/refs/tags"))

  hash_or_undefined : Option Text → Text
  hash_or_undefined (some hash) = hash
  hash_or_undefined none = codes "undefined"

  tag_or_hash : Option Text → Result Failure Text
  unfolding git_rev_parse_commit_hash hash_or_undefined
  tag_or_hash (some tag) = ok tag
  tag_or_hash none = git_rev_parse_commit_hash >>= λ hash. ok (hash_or_undefined hash)

  unfoldable pub get_version : Result Failure Text
  unfolding valid_git_repo git_describe_tags tag_or_hash
  get_version =
      let found = rerun_if_git_ref_changed >>= λ _. git_describe_tags >>= tag_or_hash in
      if valid_git_repo then found else ok (codes "undefined")
