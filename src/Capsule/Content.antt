-- ===== src/Capsule/Content.antt =====
-- capsule_content.rs: looking for versions and firmware inside a capsule.
use framework_system.Base.{
  ℕ, ◌+◌, ◌-◌, List, [], ◌∷◌, length, none, some, Maybe, ok, err, ◌>>=◌, ok_or, slice, slice_from,
}
use framework_system.Bytes.{from_le}
use framework_system.Cli.Numbers.{codes}
use framework_system.EcBinary.Text.{from_utf8}
use framework_system.Util.{find_sequence}

abbrev pub retimer_needle : List ℕ
retimer_needle = codes "$_RETIMER_PARAM_"

abbrev pub bvdt_needle : List ℕ
bvdt_needle = codes "$BVDT"

abbrev pub iflash_needle : List ℕ
iflash_needle = codes "_IFLASH_EC_IMG_"

abbrev pub ec_needle : List ℕ
ec_needle = 0x10 ∷ 0x00 ∷ 0x00 ∷ 0xF7 ∷ []

abbrev pub ccg5_needle : List ℕ
ccg5_needle = 0x00 ∷ 0x20 ∷ 0x00 ∷ 0x20 ∷ 0x11 ∷ 0x00 ∷ []

abbrev pub ccg6_needle : List ℕ
ccg6_needle = 0x00 ∷ 0x40 ∷ 0x00 ∷ 0x20 ∷ 0x11 ∷ 0x00 ∷ []

-- ec_binary.rs and ccgx/binary.rs: the sizes of the images.
abbrev pub ec_len : ℕ
ec_len = 0x80000

abbrev pub ccg5_pd_len : ℕ
ccg5_pd_len = 0x20000

abbrev pub ccg6_pd_len : ℕ
ccg6_pd_len = 0x20000

unfoldable pub find_retimer_version : List ℕ → Maybe ℕ
unfolding from_le
find_retimer_version xs = do
  found ← ok_or (find_sequence xs retimer_needle) tt
  let offset = found + 0x8 + length retimer_needle
  bytes ← slice xs offset (offset + 2)
  ok (from_le bytes)

pub record BiosCapsule : Type 0 where
  pub platform : List ℕ
  pub version : List ℕ

unfoldable pub find_bios_version : List ℕ → Maybe BiosCapsule
find_bios_version xs = do
  found ← ok_or (find_sequence xs bvdt_needle) tt
  let platform_offset = found + 0xA + length bvdt_needle - 1
  platform_bytes ← slice xs platform_offset (platform_offset + 4)
  platform ← ok_or (from_utf8 platform_bytes) tt
  let ver_offset = found + 0xE + length bvdt_needle - 1
  version_bytes ← slice xs ver_offset (ver_offset + 4)
  version ← ok_or (from_utf8 version_bytes) tt
  ok (record { platform = platform; version = version })

unfoldable pub find_ec_in_bios_cap : List ℕ → Maybe (List ℕ)
find_ec_in_bios_cap xs = do
  found_iflash ← ok_or (find_sequence xs iflash_needle) tt
  rest ← slice_from xs found_iflash
  found ← ok_or (find_sequence rest ec_needle) tt
  slice xs (found_iflash + found) (found_iflash + found + ec_len)

-- The first bytes of an image for CCG5, or else for CCG6.
unfoldable pub find_pd_in_bios_cap : List ℕ → Maybe (List ℕ)
find_pd_in_bios_cap xs = elim (find_sequence xs ccg5_needle) [
  | some found_pd1 ↦ slice xs found_pd1 (found_pd1 + ccg5_pd_len)
  | none ↦ elim (find_sequence xs ccg6_needle) [
    | some found_pd1 ↦ slice xs found_pd1 (found_pd1 + ccg6_pd_len)
    | none ↦ err tt
  ]
]
