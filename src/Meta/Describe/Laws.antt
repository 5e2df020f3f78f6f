-- ===== src/Meta/Describe/Laws.antt =====
-- packages/meta/build.rs: what the version text is.
use node_reqwest.Prelude.{
  ◌≡◌, ◌⊎◌, inl, inr, refl, Text, codes, is_empty, true, false, Option, none, some, arith,
}
use node_reqwest.Prelude.Outcome.{ok, Holds, Holds->>=, Holds-if, Holds-ok}
use node_reqwest.Meta.Describe.{
  Output, failed, printed, World, output_text, valid_git_repo, git_describe_tags,
  git_rev_parse_commit_hash, rerun_if_git_ref_changed, hash_or_undefined, tag_or_hash, get_version,
}

-- A text that a process printed, trimmed and not empty.
abbrev pub From : (Text → Text) → Option Output → Text → Type 0
From trim o version =
    (text : Text) × (o ≡ some (printed (some text)))
    × (trim text ≡ version)
    × (is_empty version ≡ false)

abbrev Found : (Text → Text) → Option Output → Option Text → Type 0
Found trim o none = Unit
Found trim o (some version) = From trim o version

output_text-Found :
    (trim : Text → Text) (context : Text) (o : Option Output)
    → Holds (Found trim o) (output_text trim context o)
unfolding output_text
output_text-Found trim context none = tt
output_text-Found trim context (some failed) = tt
output_text-Found trim context (some (printed none)) = tt
output_text-Found trim context (some (printed (some text))) =
    Holds-if (Found trim (some (printed (some text)))) (is_empty (trim text)) _ _ (λ _. tt)
      (λ set. (text, refl, refl, set))

module _ (w : World) where
  -- Where a version can come from.
  abbrev pub Source : Text → Type 0
  Source version =
      (version ≡ codes "undefined")
      ⊎ (w.git_status ≡ some true)
        × (From w.trim w.git_describe version ⊎ From w.trim w.git_rev_parse version)

  tag_or_hash-Source :
      (tag : Option Text)
      → w.git_status ≡ some true
      → Found w.trim w.git_describe tag
      → Holds Source (tag_or_hash w tag)
  unfolding tag_or_hash hash_or_undefined git_rev_parse_commit_hash
  tag_or_hash-Source (some tag) repo found = inr (repo, inl found)
  tag_or_hash-Source none repo found =
      Holds->>= Source (git_rev_parse_commit_hash w) _ (λ (hash : Option Text) printed. named hash (
        Holds-ok (Found w.trim w.git_rev_parse) _ (output_text-Found w.trim _ w.git_rev_parse)
          printed))
    where
      named :
          (hash : Option Text)
          → Found w.trim w.git_rev_parse hash
          → Source (hash_or_undefined w hash)
      named none h = inl refl
      named (some hash) h = inr (repo, inr h)

  repo_of : valid_git_repo w ≡ true → w.git_status ≡ some true
  unfolding valid_git_repo
  repo_of h = ground arith

  get_version-Source : Holds Source (get_version w)
  unfolding get_version git_describe_tags
  get_version-Source =
      Holds-if Source (valid_git_repo w) _ _
        (λ repo. Holds->>= Source (rerun_if_git_ref_changed w) _ λ _ _.
          Holds->>= Source (git_describe_tags w) _ λ tag described.
            tag_or_hash-Source tag (repo_of repo) (
              Holds-ok (Found w.trim w.git_describe) _ (output_text-Found w.trim _ w.git_describe)
                described))
        (λ _. inl refl)

  -- A version that the build finds is never empty: it is `undefined`, or, in a git repository, what
  -- `git describe` or else `git rev-parse` printed, trimmed.
  pub Source-get_version : (version : Text) → get_version w ≡ ok version → Source version
  Source-get_version version e = Holds-ok Source (get_version w) get_version-Source e
