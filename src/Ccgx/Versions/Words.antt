-- ===== src/Ccgx/Versions/Words.antt =====
-- The version numbers are the digits of the word that they are read from.
use framework_system.Base.{ℕ, ◌+◌, ◌*◌, ◌^◌, ◌<◌, ◌≡◌, refl, ok, index, arith, ◌/◌, ◌%◌}
use framework_system.Bytes.{to_le, from_le, high_nibble, low_nibble}
use framework_system.Ccgx.Versions.{
  BaseVersion, base_version_from, base_version_from_u32, AppVersion, app_version_from,
  app_version_from_u32, application_from,
}

abbrev base_of : ℕ → BaseVersion
base_of w = record {
  major = w / 2 ^ 28;
  minor = w / 2 ^ 24 % 16;
  patch = w / 2 ^ 16 % 256;
  build_number = w % 2 ^ 16;
}

-- A base version holds the fields of its word, and the word can be had back from them.
base_version_from_u32_fields :
    (w : ℕ)
    → w < 2 ^ 32
    → (v : BaseVersion) × (base_version_from_u32 {E = Unit {0}} w ≡ ok v)
      × (w ≡ v.build_number + 2 ^ 16 * v.patch + 2 ^ 24 * v.minor + 2 ^ 28 * v.major)
      × (v.build_number < 2 ^ 16)
      × (v.patch < 2 ^ 8)
      × (v.minor < 16)
      × (v.major < 16)
unfolding base_version_from_u32 base_version_from to_le from_le index
base_version_from_u32_fields w h = (
  base_of w,
  ground (arith, high_nibble (w / 256 / 256 / 256 % 256), low_nibble (w / 256 / 256 / 256 % 256)),
  omega arith,
  omega arith,
  omega arith,
  omega arith,
  omega arith,
)

abbrev app_of : ℕ → AppVersion
app_of w = record {
  application = application_from (w / 256 % 256) (w % 256);
  major = w / 2 ^ 28;
  minor = w / 2 ^ 24 % 16;
  circuit = w / 2 ^ 16 % 256;
}

-- An application version holds the fields of its word. The two low bytes name the application.
app_version_from_u32_fields :
    (w : ℕ)
    → w < 2 ^ 32
    → (v : AppVersion) × (app_version_from_u32 {E = Unit {0}} w ≡ ok v)
      × (w ≡ w % 2 ^ 16 + 2 ^ 16 * v.circuit + 2 ^ 24 * v.minor + 2 ^ 28 * v.major)
      × (v.application ≡ application_from (w / 256 % 256) (w % 256))
unfolding app_version_from_u32 app_version_from to_le index
app_version_from_u32_fields w h = (
  app_of w,
  ground (arith, high_nibble (w / 256 / 256 / 256 % 256), low_nibble (w / 256 / 256 / 256 % 256)),
  omega arith,
  refl,
)
