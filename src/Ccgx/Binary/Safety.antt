-- ===== src/Ccgx/Binary/Safety.antt =====
-- When parsing a PD binary does not panic, and when it does.
use native.Mathlib.Decide.{dec_le}
use framework_system.Base.{ℕ, ◌+◌, ◌*◌, ◌%◌, ◌≤◌, ◌<◌, ◌≡◌, refl, arith, List, length, take, drop}
use framework_system.Base.{ok, panic, Returns, Returns-bind, length-take-drop, length-drop}
use framework_system.Base.{index, slice_prefix, slice_from_in_range, slice_from_out_of_range}
use framework_system.Ccgx.Versions.{SiliconId, ccg3, ccg5, ccg6, ccg8}
use framework_system.Ccgx.Metadata.{
  parse_metadata_cyacd, parse_metadata_cyacd2, firmware_of, firmware_of_v2, CyAcdMetadata,
  CyAcd2Metadata,
}
use framework_system.Ccgx.Binary.{
  read_256_bytes, parse_metadata, read_metadata, parse_firmware, read_version, read_versions,
  layout,
}
use framework_system.Ccgx.Versions.{base_version_from_u32, app_version_from_u32}
use framework_system.Ccgx.Binary.Rows.{
  read_256_bytes-large, read_256_bytes-small, read_256_bytes-none,
}

firmware_of-Returns : (m : CyAcdMetadata) → Returns (firmware_of m)
unfolding firmware_of
firmware_of-Returns m = ground arith

firmware_of_v2-Returns : (m : CyAcd2Metadata) → Returns (firmware_of_v2 m)
unfolding firmware_of_v2
firmware_of_v2-Returns m = ground arith

module _ (buffer : List ℕ) (full : length buffer ≡ 0x100) where
  parse_metadata_cyacd-Returns : Returns (parse_metadata_cyacd buffer)
  unfolding parse_metadata_cyacd
  parse_metadata_cyacd-Returns =
      rw
        (
          slice_from_in_range buffer 0xC0 (omega arith),
          slice_prefix (drop 0xC0 buffer) 0x20 (omega (arith, length-drop 0xC0 buffer)),
        )
        (firmware_of-Returns _)

  parse_metadata_cyacd2-Returns : Returns (parse_metadata_cyacd2 buffer)
  unfolding parse_metadata_cyacd2
  parse_metadata_cyacd2-Returns =
      rw
        (
          slice_from_in_range buffer 0x80 (omega arith),
          slice_prefix (drop 0x80 buffer) 0x80 (omega (arith, length-drop 0x80 buffer)),
        )
        (firmware_of_v2-Returns _)

-- Files of whole 256-byte rows.
module _ (file : List ℕ) (whole : length file % 0x100 ≡ 0) where
  read_256_bytes-Full :
      (row : ℕ)
      → Returns (read_256_bytes file row 0x100)
        × ((b : List ℕ) → read_256_bytes file row 0x100 ≡ ok b → length b ≡ 0x100)
  read_256_bytes-Full row = elim (dec_le (row * 0x100 + 0x100) (length file)) [
    | yes h ↦ rw (read_256_bytes-large file row 0x100 h) (
      tt,
      λ b e.
          let same : take 0x100 (drop (row * 0x100) file) ≡ b = cc in
          rw (← same) (length-take-drop file (row * 0x100) 0x100 (omega arith)),
    )
    | no h ↦ rw (read_256_bytes-none file row 0x100 (omega arith)) (tt, λ b e. cc)
  ]

  read_metadata-Returns :
      (row : ℕ) (ccgx : SiliconId)
      → (layout ccgx).0 ≡ 0x100
      → Returns (read_metadata file 0x100 row ccgx)
  unfolding read_metadata parse_metadata
  read_metadata-Returns row ccg3 e = absurd (omega arith)
  read_metadata-Returns row ccg6 e = absurd (omega arith)
  read_metadata-Returns row ccg5 e =
      Returns-bind _ _ (read_256_bytes-Full row).0
        λ b eq. parse_metadata_cyacd-Returns b ((read_256_bytes-Full row).1 b eq)
  read_metadata-Returns row ccg8 e = Returns-bind _ _ (read_256_bytes-Full row).0 λ b eq.
      Returns-bind _ _ (parse_metadata_cyacd2-Returns b ((read_256_bytes-Full row).1 b eq))
        λ r q. tt

  read_version-Returns :
      (row : ℕ) (ccgx : SiliconId)
      → (layout ccgx).0 ≡ 0x100
      → Returns (read_version file 0x100 row ccgx)
  unfolding read_version parse_firmware base_version_from_u32 app_version_from_u32 index
  read_version-Returns row ccgx e =
      Returns-bind _ _ (read_metadata-Returns row ccgx e) λ (start, size) found.
        Returns-bind _ _ (read_256_bytes-Full start).0 λ b eq.
          let full = (read_256_bytes-Full start).1 b eq in
          rw
            (
              slice_from_in_range b 0xE0 (omega arith),
              slice_prefix (drop 0xE0 b) 12 (omega (arith, length-drop 0xE0 b)),
            )
            tt

  -- A file of whole 256-byte rows is parsed for the chips with large rows without a panic,
  -- whatever its bytes are.
  pub read_versions-Returns :
      (ccgx : SiliconId) → (layout ccgx).0 ≡ 0x100 → Returns (read_versions file ccgx)
  unfolding read_versions
  read_versions-Returns ccg3 e = absurd (omega arith)
  read_versions-Returns ccg6 e = absurd (omega arith)
  read_versions-Returns ccg5 e =
      Returns-bind _ _ (read_version-Returns _ ccg5 e)
        λ b p. Returns-bind _ _ (read_version-Returns _ ccg5 e) λ m q. tt
  read_versions-Returns ccg8 e =
      Returns-bind _ _ (read_version-Returns _ ccg8 e)
        λ b p. Returns-bind _ _ (read_version-Returns _ ccg8 e) λ m q. tt

-- A file that ends in the second half of its first metadata row makes the parser for CCG6
-- panic: 128 bytes are read, and the metadata is looked for behind them.
pub read_versions_panics :
    (file : List ℕ)
    → 0x1FE * 0x80 + 0x80 ≤ length file
    → length file < 0x1FE * 0x80 + 0x100
    → read_versions file ccg6 ≡ panic
unfolding read_versions read_version read_metadata parse_metadata parse_metadata_cyacd
read_versions_panics file h k =
    rw
      (
        read_256_bytes-small file 0x1FE 0x80 h k,
        slice_from_out_of_range (take 0x80 (drop (0x1FE * 0x80) file)) 0xC0
            (omega (arith, length-take-drop file (0x1FE * 0x80) 0x80)),
      )
      refl
