-- ===== src/Ccgx/Metadata.antt =====
-- The metadata rows: where the firmware image starts, and its size.
use framework_system.Base.{
  ℕ, ◌+◌, ◌*◌, List, ok, err, Maybe, ◌>>=◌, slice, slice_from, ◌==◌, if◌then◌else◌,
}
use framework_system.Bytes.{field}

abbrev pub fw1_metadata_row : ℕ
fw1_metadata_row = 0x1FE

abbrev pub fw1_metadata_row_ccg8 : ℕ
fw1_metadata_row_ccg8 = 0x3FE

abbrev pub fw2_metadata_row_ccg5 : ℕ
fw2_metadata_row_ccg5 = 0x1FF

abbrev pub fw2_metadata_row_ccg6 : ℕ
fw2_metadata_row_ccg6 = 0x1FD

abbrev pub fw2_metadata_row_ccg8 : ℕ
fw2_metadata_row_ccg8 = 0x3FF

abbrev pub metadata_offset : ℕ
metadata_offset = 0xC0

abbrev pub ccg8_metadata_offset : ℕ
ccg8_metadata_offset = 0x80

abbrev pub ccg3_metadata_offset : ℕ
ccg3_metadata_offset = 0x40

-- The bytes `YC`, low byte first.
abbrev pub metadata_magic : ℕ
metadata_magic = b'Y' + 256 * b'C'

abbrev pub ccg8_metadata_magic : ℕ
ccg8_metadata_magic = b'F' + 256 * b'I'

-- The fields of the packed struct that the code uses, at their offsets; its size is 0x20.
pub record CyAcdMetadata : Type 0 where
  pub boot_last_row : ℕ
  pub fw_size : ℕ
  pub metadata_valid : ℕ

abbrev pub cy_acd_metadata_len : ℕ
cy_acd_metadata_len = 0x20

unfoldable pub read_cy_acd_metadata : List ℕ → CyAcdMetadata
unfolding field
read_cy_acd_metadata bytes = record {
  boot_last_row = field bytes 0x05 2;
  fw_size = field bytes 0x09 4;
  metadata_valid = field bytes 0x16 2;
}

-- The same for CCG8. The size is 0x80.
pub record CyAcd2Metadata : Type 0 where
  pub fw_start : ℕ
  pub fw_size : ℕ
  pub metadata_version : ℕ
  pub metadata_valid : ℕ

abbrev pub cy_acd2_metadata_len : ℕ
cy_acd2_metadata_len = 0x80

unfoldable pub read_cy_acd2_metadata : List ℕ → CyAcd2Metadata
unfolding field
read_cy_acd2_metadata bytes = record {
  fw_start = field bytes 0x00 4;
  fw_size = field bytes 0x04 4;
  metadata_version = field bytes 0x54 2;
  metadata_valid = field bytes 0x56 2;
}

-- The first row of the firmware and its size.
unfoldable pub firmware_of : CyAcdMetadata → Maybe (ℕ × ℕ)
firmware_of m =
    if m.metadata_valid == metadata_magic then ok (1 + m.boot_last_row, m.fw_size) else err tt

-- The same for CCG8, where the metadata has a version that must be 1.
unfoldable pub firmware_of_v2 : CyAcd2Metadata → Maybe (ℕ × ℕ)
firmware_of_v2 m =
    if m.metadata_valid == ccg8_metadata_magic
    then if m.metadata_version == 1 then ok (m.fw_start, m.fw_size) else err tt
    else err tt

unfoldable pub parse_metadata_ccg3 : List ℕ → Maybe (ℕ × ℕ)
unfolding firmware_of
parse_metadata_ccg3 buffer = do
  rest ← slice_from buffer ccg3_metadata_offset
  bytes ← slice rest 0 cy_acd_metadata_len
  firmware_of (read_cy_acd_metadata bytes)

unfoldable pub parse_metadata_cyacd : List ℕ → Maybe (ℕ × ℕ)
unfolding firmware_of
parse_metadata_cyacd buffer = do
  rest ← slice_from buffer metadata_offset
  bytes ← slice rest 0 cy_acd_metadata_len
  firmware_of (read_cy_acd_metadata bytes)

unfoldable pub parse_metadata_cyacd2 : List ℕ → Maybe (ℕ × ℕ)
parse_metadata_cyacd2 buffer = do
  rest ← slice_from buffer ccg8_metadata_offset
  bytes ← slice rest 0 cy_acd2_metadata_len
  firmware_of_v2 (read_cy_acd2_metadata bytes)
