-- ===== src/Tests/Images.antt =====
-- An EC image that is blank but for the version block of its RO half.
use framework_system.Base.{
  List, ◌++◌, ℕ, ◌≡◌, ◌⊎◌, refl, ok, true, Option, none, some, replicate, if◌then◌else◌, ◌==◌, ◌+◌,
  ltb, false, length, length-replicate, length-append, drop, drop-append, slice_from_in_range,
  le→not_ltb, sym, ap, ◌∙◌, arith,
}
use framework_system.Bytes.{field, to_le}
use framework_system.EcBinary.{
  ImageVersionData, Captures, read_ec_version, parse_ec_version, parse_ec_version_str,
  read_raw_version, ec_ro_ver_offset, ec_rw_ver_offset, ec_ro_ver_offset_zephyr,
  ec_rw_ver_offset_zephyr,
}
use framework_system.EcBinary.Text.{is_utf8, from_utf8, trim_end_zeros}
use framework_system.EcBinary.Laws.{IsVersionAt, read_ec_version-IsVersionAt}
use framework_system.Cli.Numbers.{codes, parse_codes}

-- The groups of the pattern in `hx30_v0.0.1-7a61a89`.
abbrev captures : Captures
captures text = some groups
  where
    groups : ℕ → Option (List ℕ)
    groups n =
        if n == 1
        then some (codes "hx30")
        else if n == 3
        then some (codes "0")
        else if n == 4
        then some (codes "0")
        else if n == 5
        then some (codes "1")
        else if n == 7
        then some (codes "7a61a89")
        else none

abbrev block : List ℕ
block =
    (to_le 4 0xce778899
      ++ (codes "hx30_v0.0.1-7a61a89"
          ++ (replicate 13 0 ++ (to_le 4 0x1000 ++ (to_le 4 7 ++ to_le 4 0xceaabbdd)))))

abbrev version : ImageVersionData
version = record {
  version = codes "hx30_v0.0.1-7a61a89";
  details = record {
    platform = codes "hx30";
    major = 0;
    minor = 0;
    patch = 1;
    commit = codes "7a61a89";
  };
  size = 0x1000;
  rollback_version = 7;
}

abbrev blank : List ℕ
blank = replicate 0x2430 0

length-blank : length blank ≡ 0x2430
length-blank = length-replicate {A = ℕ} 0x2430 0

abbrev image : List ℕ
image = blank ++ block

length-block : length block ≡ 48
length-block = unfold to_le in refl

length-image : length image ≡ 0x2430 + 48
length-image = omega (arith, length-append blank block, length-blank, length-block)

drop-image : drop 0x2430 image ≡ block
drop-image = ap (λ (n : ℕ). drop n image) (sym length-blank) ∙ drop-append blank block

-- Any image of this length with the block at the RO offset is read.
block-read :
    (image : List ℕ)
    → length image ≡ 0x2430 + 48
    → drop 0x2430 image ≡ block
    → read_ec_version captures image true ≡ ok version
unfolding read_ec_version read_raw_version parse_ec_version parse_ec_version_str is_utf8 parse_codes
block-read bytes long at =
    let inside : ltb (length bytes) (0x2430 + 48) ≡ false = le→not_ltb _ _ (omega (arith, long)) in
    rw (inside, slice_from_in_range {E = Unit {0}} bytes 0x2430 (omega (arith, long)), at)
      (unfold from_utf8 field to_le trim_end_zeros in refl)

image-read : read_ec_version captures image true ≡ ok version
image-read = block-read image length-image drop-image

read_ec_version-IsVersionAt_example :
    IsVersionAt image (if true then ec_ro_ver_offset else ec_rw_ver_offset) version
    ⊎ IsVersionAt image (if true then ec_ro_ver_offset_zephyr else ec_rw_ver_offset_zephyr) version
read_ec_version-IsVersionAt_example =
    read_ec_version-IsVersionAt captures image true version image-read
