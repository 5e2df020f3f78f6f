-- ===== src/Meta/Resource.antt =====
-- packages/meta/src/lib.rs, `cdylib_win_rc`: the version resource of a Windows library.
pub mod Word
pub mod Stamps
use Prim.Native.Nat.{bit_or}
use node_reqwest.Prelude.{
  ℕ, ◌*◌, ◌%◌, ◌^◌, Text, codes, print, if◌then◌else◌, Bool, Option, none, some, List, [], ◌∷◌,
  ◌++◌,
}
use node_reqwest.Prelude.Outcome.{Result, ok, err, ◌>>=◌}
use node_reqwest.Meta.Version.{Version}

-- `tauri_winres::VersionInfo`
pub data VersionInfo : Type 0 where
  file_version product_version file_flags_mask file_flags file_os file_type file_subtype :
      VersionInfo

-- The calls made on a `WindowsResource`, in their order.
pub data Setting : Type 0 where
  set_language : ℕ → Setting
  set_version_info : VersionInfo → ℕ → Setting
  set : (name value : Text) → Setting

abbrev pub english_us : ℕ
english_us = 0x0409

-- `VS_FFI_FILEFLAGSMASK`, `VOS_NT_WINDOWS32`, `VFT_DLL` and `VFT2_UNKNOWN`
abbrev pub file_flags_bits : ℕ
file_flags_bits = 0x0000003F

abbrev pub nt_windows_32 : ℕ
nt_windows_32 = 0x00040004

abbrev pub type_dll : ℕ
type_dll = 0x00000002

abbrev pub subtype_unknown : ℕ
subtype_unknown = 0x00000000

-- `n << places` of a 64-bit number: the bits that leave it are lost.
abbrev pub shift_left : ℕ → ℕ → ℕ
shift_left n places = n * 2 ^ places % 2 ^ 64

-- `(version.major << 48) | (version.minor << 32) | (version.patch << 16)`
unfoldable pub version_hex : Version → ℕ
version_hex v =
    bit_or (bit_or (shift_left v.major 48) (shift_left v.minor 32)) (shift_left v.patch 16)

-- `format!("{}.{}.{}.0", …)`
unfoldable pub version_str : Version → Text
version_str v =
    print v.major ++ codes "." ++ print v.minor ++ codes "." ++ print v.patch ++ codes ".0"

abbrev author : Text
author = codes "Vadim Piven <vadim@piven.tech> (https://piven.tech)"

-- `format!("Copyright © {} {}", year, author)`, with the two bytes of the sign.
copyright : ℕ → Text
copyright year = codes "Copyright " ++ 0xC2 ∷ 0xA9 ∷ codes " " ++ print year ++ codes " " ++ author

unfoldable pub settings : (product internal_name filename : Text) → ℕ → Version → List Setting
unfolding version_hex version_str copyright
settings product internal_name filename year v =
    set_language english_us
    ∷ set_version_info file_version (version_hex v)
    ∷ set_version_info product_version (version_hex v)
    ∷ set_version_info file_flags_mask file_flags_bits
    ∷ set_version_info file_flags 0
    ∷ set_version_info file_os nt_windows_32
    ∷ set_version_info file_type type_dll
    ∷ set_version_info file_subtype subtype_unknown
    ∷ set (codes "CompanyName") author
    ∷ set (codes "LegalCopyright") (copyright year)
    ∷ set (codes "ProductName") product
    ∷ set (codes "FileDescription") product
    ∷ set (codes "InternalName") internal_name
    ∷ set (codes "OriginalFilename") filename
    ∷ set (codes "ProductVersion") (version_str v)
    ∷ set (codes "FileVersion") (version_str v)
    ∷ []

-- What the build runs under: whether the target is `msvc`, `CARGO_PKG_NAME`, the year by the clock,
-- and whether the resource compiler takes a resource with these settings.
pub record Build : Type 0 where
  pub msvc : Bool
  pub package_name : Option Text
  pub year : ℕ
  pub compile : List Setting → Bool

-- `var(…).context(…)`
abbrev or_context : Text → Option Text → Result Text Text
or_context context none = err context
or_context context (some value) = ok value

-- Behind the test of the target: the settings of the resource, once it is compiled.
compiled : Build → Text → Version → Text → Result Text (List Setting)
unfolding settings
compiled build product v filename = do
  internal_name ←
      or_context (codes "CARGO_PKG_NAME is set by cargo for build.rs") build.package_name
  let made = settings product internal_name filename build.year v
  if build.compile made then ok made else err (codes "failed to compile windows resource")

-- The resource that was made, if any; else the context of the error.
unfoldable pub cdylib_win_rc : Build → Text → Version → Text → Result Text (Option (List Setting))
unfolding compiled
cdylib_win_rc build product v filename =
    let made = compiled build product v filename >>= λ settings. ok (some settings) in
    if build.msvc then made else ok none
