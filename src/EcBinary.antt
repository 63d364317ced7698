-- ===== src/EcBinary.antt =====
-- framework_lib/src/ec_binary.rs: the version blocks of an EC firmware image.
pub mod Text
pub mod Laws
use Text.{from_utf8, trim_end_zeros}
use framework_system.Base.{
  ℕ, ◌+◌, ◌^◌, List, length, take, drop, Bool, ltb, ◌==◌, not, if◌then◌else◌, Option, none, some,
}
use framework_system.Base.{Maybe, ok, err, ◌>>=◌, ok_or, slice_from}
use framework_system.Bytes.{field}
use framework_system.Cli.Numbers.{parse_codes}

abbrev pub image_data_cookie1 : ℕ
image_data_cookie1 = 0xce778899

abbrev pub image_data_cookie2 : ℕ
image_data_cookie2 = 0xceaabbdd

abbrev pub ec_ro_ver_offset : ℕ
ec_ro_ver_offset = 0x2430

abbrev pub ec_rw_ver_offset : ℕ
ec_rw_ver_offset = 0x402f0

abbrev pub ec_ro_ver_offset_zephyr : ℕ
ec_ro_ver_offset_zephyr = 0x00180

abbrev pub ec_rw_ver_offset_zephyr : ℕ
ec_rw_ver_offset_zephyr = 0x40140

-- The packed struct `_ImageVersionData` of 48 bytes.
pub record RawVersion : Type 0 where
  pub cookie1 : ℕ
  pub version : List ℕ
  pub size : ℕ
  pub rollback_version : ℕ
  pub cookie2 : ℕ

abbrev pub raw_version_len : ℕ
raw_version_len = 48

unfoldable pub read_raw_version : List ℕ → RawVersion
read_raw_version bytes = record {
  cookie1 = field bytes 0 4;
  version = take 32 (drop 4 bytes);
  size = field bytes 36 4;
  rollback_version = field bytes 40 4;
  cookie2 = field bytes 44 4;
}

-- Texts are lists of bytes.
pub record ImageVersionDetails : Type 0 where
  pub platform : List ℕ
  pub major : ℕ
  pub minor : ℕ
  pub patch : ℕ
  pub commit : List ℕ

pub record ImageVersionData : Type 0 where
  pub version : List ℕ
  pub details : ImageVersionDetails
  pub size : ℕ
  pub rollback_version : ℕ

-- The `regex` crate, for the one pattern of `parse_ec_version_str`: the groups of the first match.
abbrev pub Captures : Type 0
Captures = List ℕ → Option (ℕ → Option (List ℕ))

module _ (captures : Captures) where
  unfoldable pub parse_ec_version_str : List ℕ → Maybe ImageVersionDetails
  parse_ec_version_str version = do
    caps ← ok_or (captures version) tt
    platform ← ok_or (caps 1) tt
    c3 ← ok_or (caps 3) tt
    major ← ok_or (parse_codes (2 ^ 32) c3) tt
    c4 ← ok_or (caps 4) tt
    minor ← ok_or (parse_codes (2 ^ 32) c4) tt
    c5 ← ok_or (caps 5) tt
    patch ← ok_or (parse_codes (2 ^ 32) c5) tt
    commit ← ok_or (caps 7) tt
    ok (record {
      platform = platform;
      major = major;
      minor = minor;
      patch = patch;
      commit = commit;
    })

  unfoldable pub parse_ec_version : RawVersion → Maybe ImageVersionData
  parse_ec_version raw = do
    text ← ok_or (from_utf8 raw.version) tt
    let version = trim_end_zeros text
    details ← parse_ec_version_str version
    ok (record {
      version = version;
      details = details;
      size = raw.size;
      rollback_version = raw.rollback_version;
    })

  -- A version block at an offset, or what is done without one.
  unfoldable pub version_at : List ℕ → ℕ → Maybe ImageVersionData → Maybe ImageVersionData
  version_at image offset otherwise =
      if ltb (length image) (offset + raw_version_len)
      then err tt
      else (do rest ← slice_from image offset; check (read_raw_version rest) otherwise)
    where
      check : RawVersion → Maybe ImageVersionData → Maybe ImageVersionData
      check raw otherwise =
          if not (raw.cookie1 == image_data_cookie1)
          then otherwise
          else if not (raw.cookie2 == image_data_cookie2)
          then otherwise
          else parse_ec_version raw

  -- First the legacy offset, then the one of Zephyr.
  unfoldable pub read_ec_version : List ℕ → Bool → Maybe ImageVersionData
  unfolding version_at
  read_ec_version image ro =
      version_at image (if ro then ec_ro_ver_offset else ec_rw_ver_offset) (
        version_at image (if ro then ec_ro_ver_offset_zephyr else ec_rw_ver_offset_zephyr) (err tt))
