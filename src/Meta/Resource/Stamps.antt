-- ===== src/Meta/Resource/Stamps.antt =====
-- packages/meta/src/lib.rs, `cdylib_win_rc`: what the resource says of the version.
use mathlib.Core.List.{append_assoc}
use node_reqwest.Prelude.{
  ℕ, ◌≡◌, refl, ap, Text, codes, text_eq, ◌==◌, if◌then◌else◌, Option, none, some, List, [], ◌∷◌,
  ◌++◌,
}
use node_reqwest.Prelude.Outcome.{ok, Holds, Holds->>=, Holds-if, Holds-ok}
use node_reqwest.Meta.Version.{Version, to_string}
use node_reqwest.Meta.Resource.{
  VersionInfo, file_version, product_version, file_flags_mask, file_flags, file_os, file_type,
  file_subtype, Setting, set_language, set_version_info, set, Build, settings, version_hex,
  version_str, or_context, compiled, cdylib_win_rc,
}
use node_reqwest.Meta.Resource.Word.{Fits, decoded, decoded-version_hex}

version_str-to_string : (v : Version) → version_str v ≡ to_string v ++ codes ".0"
unfolding version_str to_string
version_str-to_string v = simp append_assoc refl

abbrev number_of : VersionInfo → ℕ
number_of file_version = 0
number_of product_version = 1
number_of file_flags_mask = 2
number_of file_flags = 3
number_of file_os = 4
number_of file_type = 5
number_of file_subtype = 6

-- A later call of a setter replaces an earlier one.
abbrev pub or_later {ℓ} : {A : Type ℓ} → Option A → Option A → Option A
or_later earlier none = earlier
or_later earlier (some later) = some later

unfoldable pub info : VersionInfo → List Setting → Option ℕ
info field [] = none
info field (set_version_info f n ∷ more) =
    or_later (if number_of field == number_of f then some n else none) (info field more)
info field (set_language _ ∷ more) = info field more
info field (set _ _ ∷ more) = info field more

unfoldable pub entry : Text → List Setting → Option Text
entry key [] = none
entry key (set name value ∷ more) =
    or_later (if text_eq key name then some value else none) (entry key more)
entry key (set_language _ ∷ more) = entry key more
entry key (set_version_info _ _ ∷ more) = entry key more

-- The resource gives this version, as a number of 16-bit fields and as a text, in both places.
abbrev pub Stamped : Version → List Setting → Type 0
Stamped v made =
    (w : ℕ) × (info file_version made ≡ some w)
    × (info product_version made ≡ some w)
    × (decoded w ≡ v)
    × (entry (codes "FileVersion") made ≡ some (to_string v ++ codes ".0"))
    × (entry (codes "ProductVersion") made ≡ some (to_string v ++ codes ".0"))

settings-Stamped :
    (product internal_name filename : Text) (year : ℕ) (v : Version)
    → Fits v
    → Stamped v (settings product internal_name filename year v)
unfolding settings info entry text_eq
settings-Stamped product internal_name filename year v fits = (
  version_hex v,
  refl,
  refl,
  (decoded-version_hex v fits).0,
  ap some (version_str-to_string v),
  ap some (version_str-to_string v),
)

compiled-Stamped :
    (build : Build) (product : Text) (v : Version) (filename : Text)
    → Fits v
    → Holds (Stamped v) (compiled build product v filename)
unfolding compiled
compiled-Stamped build product v filename fits =
    Holds->>= (Stamped v) (or_context _ build.package_name) _ λ internal_name _.
      Holds-if (Stamped v) (build.compile (settings product internal_name filename build.year v)) _
        _ (λ _. settings-Stamped product internal_name filename build.year v fits) (λ _. tt)

abbrev WhereMade : Version → Option (List Setting) → Type 0
WhereMade v none = Unit
WhereMade v (some made) = Stamped v made

-- Every resource that is compiled gives the version: where the three numbers fit the 16 bits that
-- the resource has for each, its word has them in their fields, and both texts are the version as
-- it is printed with a fourth number 0 behind it.
pub cdylib_win_rc-Stamped :
    (build : Build) (product : Text) (v : Version) (filename : Text) (made : List Setting)
    → Fits v
    → cdylib_win_rc build product v filename ≡ ok (some made)
    → Stamped v made
unfolding cdylib_win_rc
cdylib_win_rc-Stamped build product v filename made fits e =
    Holds-ok (WhereMade v) (cdylib_win_rc build product v filename)
      (Holds-if (WhereMade v) build.msvc _ _
        (λ _.
          Holds->>= (WhereMade v) (compiled build product v filename) _ λ settings is.
            Holds-ok (Stamped v) _ (compiled-Stamped build product v filename fits) is)
        (λ _. tt))
      e
