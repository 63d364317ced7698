-- ===== src/EcBinary/Laws.antt =====
-- Reading the version of any image ends without a panic, and an accepted version comes from a
-- block with both cookies.
use native.Mathlib.Decide.{dec_le}
use framework_system.Base.{
  ℕ, ◌+◌, ◌≤◌, ◌≡◌, ap, sym, ◌∙◌, arith, List, length, Bool, ◌⊎◌, inl, inr, drop,
}
use framework_system.Base.{
  Maybe, ok, Returns, slice_from_in_range, le→not_ltb, lt→ltb, Bool-cases, ◌==◌, ==_iff,
  if◌then◌else◌,
}
use framework_system.Bytes.{field, field-drop}
use framework_system.EcBinary.Text.{trim_end_zeros, from_utf8}
use framework_system.EcBinary.{
  Captures, RawVersion, ImageVersionData, read_raw_version, parse_ec_version_str, parse_ec_version,
  version_at, read_ec_version, image_data_cookie1, image_data_cookie2, ec_ro_ver_offset,
  ec_rw_ver_offset, ec_ro_ver_offset_zephyr, ec_rw_ver_offset_zephyr,
}

module _ (captures : Captures) where
  parse_ec_version_str-Returns : (v : List ℕ) → Returns (parse_ec_version_str captures v)
  unfolding parse_ec_version_str
  parse_ec_version_str-Returns v = ground arith

  parse_ec_version-Returns : (raw : RawVersion) → Returns (parse_ec_version captures raw)
  unfolding parse_ec_version from_utf8
  parse_ec_version-Returns raw =
      ground (arith, parse_ec_version_str-Returns (trim_end_zeros raw.version))

  version_at-Returns :
      (image : List ℕ) (offset : ℕ) (otherwise : Maybe ImageVersionData)
      → Returns otherwise
      → Returns (version_at captures image offset otherwise)
  unfolding version_at
  version_at-Returns image offset otherwise h = elim (dec_le (offset + 48) (length image)) [
    | no short ↦ rw (lt→ltb (length image) (offset + 48) (omega arith)) tt
    | yes long ↦
        rw
          (
            le→not_ltb (length image) (offset + 48) long,
            slice_from_in_range image offset (omega arith),
          )
          (ground (arith, parse_ec_version-Returns (read_raw_version (drop offset image))))
  ]

  -- No image makes the reader panic, short or damaged as it may be.
  read_ec_version-Returns :
      (image : List ℕ) (ro : Bool) → Returns (read_ec_version captures image ro)
  unfolding read_ec_version
  read_ec_version-Returns image ro = version_at-Returns image _ _ (version_at-Returns image _ _ tt)

-- A version that was read from the block at an offset of an image.
pub record IsVersionAt (image : List ℕ) (offset : ℕ) (v : ImageVersionData) : Type 0 where
  pub inside : offset + 48 ≤ length image
  pub cookie1 : field image offset 4 ≡ image_data_cookie1
  pub cookie2 : field image (offset + 44) 4 ≡ image_data_cookie2
  pub size : v.size ≡ field image (offset + 36) 4
  pub rollback_version : v.rollback_version ≡ field image (offset + 40) 4

module _ (captures : Captures) where
  parse_ec_version-sizes :
      (raw : RawVersion) {v : ImageVersionData}
      → parse_ec_version captures raw ≡ ok v
      → (v.size ≡ raw.size) × (v.rollback_version ≡ raw.rollback_version)
  unfolding parse_ec_version
  parse_ec_version-sizes raw h = ground arith

  version_at-IsVersionAt :
      (image : List ℕ) (offset : ℕ) (otherwise : Maybe ImageVersionData) {v : ImageVersionData}
      → version_at captures image offset otherwise ≡ ok v
      → IsVersionAt image offset v ⊎ (otherwise ≡ ok v)
  unfolding version_at read_raw_version
  version_at-IsVersionAt image offset otherwise h = elim (dec_le (offset + 48) (length image)) [
    | no short ↦ let p = rw (lt→ltb (length image) (offset + 48) (omega arith)) at h in cc
    | yes long ↦
        let raw = read_raw_version (drop offset image) in
        let p =
          rw
            (
              le→not_ltb (length image) (offset + 48) long,
              slice_from_in_range image offset (omega arith),
            )
            at h in
        elim (Bool-cases (raw.cookie1 == image_data_cookie1)) [
          | inr e ↦ inr (rw e at p)
          | inl e1 ↦ elim (Bool-cases (raw.cookie2 == image_data_cookie2)) [
            | inr e ↦ inr (rw (e1, e) at p)
            | inl e2 ↦
                let sizes = parse_ec_version-sizes raw (rw (e1, e2) at p) in
                inl (record {
                  inside = long;
                  cookie1 =
                      ap (λ (t : ℕ). field image t 4) (omega arith)
                      ∙ sym (field-drop image offset 0 4)
                      ∙ (==_iff _ _).0 e1;
                  cookie2 = sym (field-drop image offset 44 4) ∙ (==_iff _ _).0 e2;
                  size = sizes.0 ∙ field-drop image offset 36 4;
                  rollback_version = sizes.1 ∙ field-drop image offset 40 4;
                })
          ]
        ]
  ]

  -- An accepted version stands behind both cookies at the legacy offset or at the one of Zephyr.
  pub read_ec_version-IsVersionAt :
      (image : List ℕ) (ro : Bool) (v : ImageVersionData)
      → read_ec_version captures image ro ≡ ok v
      → IsVersionAt image (if ro then ec_ro_ver_offset else ec_rw_ver_offset) v
        ⊎ IsVersionAt image (if ro then ec_ro_ver_offset_zephyr else ec_rw_ver_offset_zephyr) v
  unfolding read_ec_version
  read_ec_version-IsVersionAt image ro v h = elim (version_at-IsVersionAt image _ _ h) [
    | inl found ↦ inl found
    | inr rest ↦ elim (version_at-IsVersionAt image _ _ rest) [
      | inl found ↦ inr found
      | inr none_left ↦ cc
    ]
  ]
