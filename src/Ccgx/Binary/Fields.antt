-- ===== src/Ccgx/Binary/Fields.antt =====
-- What an accepted firmware record holds: the bytes of the file at its start row.
use native.Mathlib.Decide.{dec_le}
use native.Mathlib.Nat.{add_assoc}
use framework_system.Base.{
  ℕ, ◌+◌, ◌*◌, ◌≤◌, ◌<◌, ◌≡◌, sym, subst, ◌∙◌, arith, List, length, take, drop,
}
use framework_system.Base.{ok, err, panic, Maybe, >>=-ok, ◌>>=◌, length-take-drop, length-drop}
use framework_system.Base.{slice_prefix, slice_from_in_range, slice_from_out_of_range, ap}
use framework_system.Bytes.{field, field-take-drop}
use framework_system.Ccgx.Versions.{
  SiliconId, BaseVersion, AppVersion, base_version_from_u32, app_version_from_u32,
}
use framework_system.Ccgx.Binary.{
  PdFirmware, VersionInfo, read_version_info, read_256_bytes, parse_firmware, read_version,
  read_metadata,
}
use framework_system.Ccgx.Binary.Rows.{
  read_256_bytes-large, read_256_bytes-small, read_256_bytes-none,
}

-- A firmware record that was read from the block at `at` of a buffer.
pub record IsReadFrom (xs : List ℕ) (at : ℕ) (fw : PdFirmware) : Type 0 where
  pub inside : at + 12 ≤ length xs
  pub base : base_version_from_u32 {E = Unit {0}} (field xs at 4) ≡ ok fw.base_version
  pub app : app_version_from_u32 {E = Unit {0}} (field xs (at + 4) 4) ≡ ok fw.app_version
  pub silicon_id : fw.silicon_id ≡ field xs (at + 8) 2
  pub silicon_family : fw.silicon_family ≡ field xs (at + 10) 2

-- The record that `parse_firmware` builds from its version block.
build : ℕ → ℕ → ℕ → VersionInfo → Maybe BaseVersion → Maybe AppVersion → Maybe PdFirmware
build row_size start size info mb ma = do
  base ← mb
  app ← ma
  ok (record {
    silicon_id = info.silicon_id;
    silicon_family = info.silicon_family;
    base_version = base;
    app_version = app;
    start_row = start;
    size = size;
    row_size = row_size;
  })

module _ (row_size start size : ℕ) (info : VersionInfo) {fw : PdFirmware} where
  build-eq-ok :
      (mb : Maybe BaseVersion) (ma : Maybe AppVersion)
      → build row_size start size info mb ma ≡ ok fw
      → (mb ≡ ok fw.base_version)
        × (ma ≡ ok fw.app_version)
        × (fw.silicon_id ≡ info.silicon_id)
        × (fw.silicon_family ≡ info.silicon_family)
        × (fw.start_row ≡ start)
        × (fw.row_size ≡ row_size)
  unfolding build
  build-eq-ok (ok b) (ok a) h = ground arith
  build-eq-ok (ok b) (err e) h = cc
  build-eq-ok (ok b) panic h = cc
  build-eq-ok (err e) ma h = cc
  build-eq-ok panic ma h = cc

module _ (row_size start size : ℕ) (row : List ℕ) {fw : PdFirmware} where
  parse_firmware-IsReadFrom :
      length row ≡ 0x100
      → parse_firmware row_size start size row ≡ ok fw
      → IsReadFrom row 0xE0 fw × (fw.start_row ≡ start) × (fw.row_size ≡ row_size)
  unfolding parse_firmware read_version_info build
  parse_firmware-IsReadFrom full h =
      let bytes = take 12 (drop 0xE0 row) in
      let p =
        rw
          (
            slice_from_in_range row 0xE0 (omega (arith, full)),
            slice_prefix (drop 0xE0 row) 12 (omega (arith, full, length-drop 0xE0 row)),
          )
          at h in
      let (b, a, id, family, at_start, rows) =
        build-eq-ok row_size start size (read_version_info bytes) _ _ p in
      (
        record {
          inside = omega (arith, full);
          base = rw (← field-take-drop row 0xE0 12 0 4 (omega arith)) b;
          app = rw (← field-take-drop row 0xE0 12 4 4 (omega arith)) a;
          silicon_id = id ∙ field-take-drop row 0xE0 12 8 2 (omega arith);
          silicon_family = family ∙ field-take-drop row 0xE0 12 10 2 (omega arith);
        },
        at_start,
        rows,
      )

  -- The same in the file that the row is a piece of.
  IsReadFrom-piece :
      (xs : List ℕ) (p : ℕ)
      → p + 0x100 ≤ length xs
      → IsReadFrom (take 0x100 (drop p xs)) 0xE0 fw
      → IsReadFrom xs (p + 0xE0) fw
  IsReadFrom-piece xs p h r = record {
    inside = omega arith;
    base = rw (field-take-drop xs p 0x100 0xE0 4 (omega arith)) at (r.base);
    app = rw (add_assoc p 0xE0 4) (rw (field-take-drop xs p 0x100 0xE4 4 (omega arith)) at (r.app));
    silicon_id =
        r.silicon_id
        ∙ field-take-drop xs p 0x100 0xE8 2 (omega arith)
        ∙ ap (λ (t : ℕ). field xs t 2) (omega arith);
    silicon_family =
        r.silicon_family
        ∙ field-take-drop xs p 0x100 0xEA 2 (omega arith)
        ∙ ap (λ (t : ℕ). field xs t 2) (omega arith);
  }

abbrev firmware_at : List ℕ → ℕ → ℕ → ℕ → Maybe PdFirmware
firmware_at file row_size start size = do
  row ← read_256_bytes file start row_size
  parse_firmware row_size start size row

module _ (file : List ℕ) (row_size start size : ℕ) {fw : PdFirmware} where
  firmware_at_too_short :
      length file < start * row_size + 0x100 → firmware_at file row_size start size ≡ ok fw → ⊥
  unfolding parse_firmware
  firmware_at_too_short k h = elim (dec_le (start * row_size + 0x80) (length file)) [
    | yes small ↦
        let row = take 0x80 (drop (start * row_size) file) in
        let p =
          rw
            (
              read_256_bytes-small file start row_size small k,
              slice_from_out_of_range row 0xE0
                  (omega (arith, length-take-drop file (start * row_size) 0x80)),
            )
            at h in
        cc
    | no none ↦ let p = rw (read_256_bytes-none file start row_size (omega arith)) at h in cc
  ]

  firmware_at-IsReadFrom :
      firmware_at file row_size start size ≡ ok fw
      → IsReadFrom file (fw.start_row * row_size + 0xE0) fw × (fw.row_size ≡ row_size)
  firmware_at-IsReadFrom h = elim (dec_le (start * row_size + 0x100) (length file)) [
    | yes large ↦
        let row = take 0x100 (drop (start * row_size) file) in
        let p = rw (read_256_bytes-large file start row_size large) at h in
        let (r, at_start, rows) =
          parse_firmware-IsReadFrom row_size start size row
            (length-take-drop file (start * row_size) 0x100 (omega arith)) p in
        (
          subst (λ (s : ℕ). IsReadFrom file (s * row_size + 0xE0) fw) (sym at_start)
              (IsReadFrom-piece row_size start size row file (start * row_size) large r),
          rows,
        )
    | no k ↦ absurd (firmware_at_too_short (omega arith) h)
  ]

-- The version block of every accepted firmware lies in the file, 0xE0 bytes behind the row that
-- the record names, and the record holds the versions and silicon numbers that stand there.
pub read_version-IsReadFrom :
    (file : List ℕ) (row_size metadata_row : ℕ) (ccgx : SiliconId) (fw : PdFirmware)
    → read_version file row_size metadata_row ccgx ≡ ok fw
    → IsReadFrom file (fw.start_row * row_size + 0xE0) fw × (fw.row_size ≡ row_size)
unfolding read_version
read_version-IsReadFrom file row_size metadata_row ccgx fw h =
    let ((start, size), found, rest) = >>=-ok (read_metadata file row_size metadata_row ccgx) _ h in
    firmware_at-IsReadFrom file row_size start size rest
