-- ===== src/Ccgx/Binary.antt =====
-- framework_lib/src/ccgx/binary.rs: the firmware images of a PD binary file.
pub mod Rows
pub mod Safety
pub mod Fields
use framework_system.Base.{ℕ, ◌+◌, ◌*◌, ◌/◌, ◌%◌, ◌^◌, List, length, leb, if◌then◌else◌}
use framework_system.Base.{ok, err, Maybe, ◌>>=◌, slice, slice_from}
use framework_system.Bytes.{field}
use framework_system.Ccgx.Versions.{
  SiliconId, ccg3, ccg5, ccg6, ccg8, BaseVersion, AppVersion, base_version_from_u32,
  app_version_from_u32,
}
use framework_system.Ccgx.Metadata.{
  parse_metadata_ccg3, parse_metadata_cyacd, parse_metadata_cyacd2, fw1_metadata_row,
  fw1_metadata_row_ccg8, fw2_metadata_row_ccg5, fw2_metadata_row_ccg6, fw2_metadata_row_ccg8,
}

abbrev pub fw_version_offset : ℕ
fw_version_offset = 0xE0

abbrev pub small_row : ℕ
small_row = 0x80

abbrev pub large_row : ℕ
large_row = 0x100

-- The packed struct of 12 bytes.
pub record VersionInfo : Type 0 where
  pub base_version : ℕ
  pub app_version : ℕ
  pub silicon_id : ℕ
  pub silicon_family : ℕ

abbrev pub version_info_len : ℕ
version_info_len = 12

unfoldable pub read_version_info : List ℕ → VersionInfo
unfolding field
read_version_info bytes = record {
  base_version = field bytes 0 4;
  app_version = field bytes 4 4;
  silicon_id = field bytes 8 2;
  silicon_family = field bytes 10 2;
}

pub record PdFirmware : Type 0 where
  pub silicon_id : ℕ
  pub silicon_family : ℕ
  pub base_version : BaseVersion
  pub app_version : AppVersion
  pub start_row : ℕ
  pub size : ℕ
  pub row_size : ℕ

pub record PdFirmwareFile : Type 0 where
  pub backup_fw : PdFirmware
  pub main_fw : PdFirmware

unfoldable pub read_256_bytes : List ℕ → ℕ → ℕ → Maybe (List ℕ)
read_256_bytes file_buffer row_no flash_row_size =
    let file_read_pointer = row_no * flash_row_size in
    let file_len = length file_buffer in
    if leb (file_read_pointer + large_row) file_len
    then slice file_buffer file_read_pointer (file_read_pointer + large_row)
    else if leb (file_read_pointer + small_row) file_len
    then slice file_buffer file_read_pointer (file_read_pointer + small_row)
    else err tt

-- The row number of the metadata parser in units of rows of the file.
unfoldable pub parse_metadata : SiliconId → ℕ → List ℕ → Maybe (ℕ × ℕ)
parse_metadata ccg3 flash_row_size buffer = parse_metadata_ccg3 buffer
parse_metadata ccg5 flash_row_size buffer = parse_metadata_cyacd buffer
parse_metadata ccg6 flash_row_size buffer = parse_metadata_cyacd buffer
parse_metadata ccg8 flash_row_size buffer = do
  (fw_row_start, fw_size) ← parse_metadata_cyacd2 buffer
  ok (fw_row_start / flash_row_size, fw_size)

unfoldable pub read_metadata : List ℕ → ℕ → ℕ → SiliconId → Maybe (ℕ × ℕ)
read_metadata file_buffer flash_row_size metadata_offset ccgx = do
  buffer ← read_256_bytes file_buffer metadata_offset flash_row_size
  parse_metadata ccgx flash_row_size buffer

-- The second half of `read_version`: the version block in the first row of the firmware.
unfoldable pub parse_firmware : ℕ → ℕ → ℕ → List ℕ → Maybe PdFirmware
parse_firmware flash_row_size fw_row_start fw_size row = do
  rest ← slice_from row fw_version_offset
  bytes ← slice rest 0 version_info_len
  let info = read_version_info bytes
  base ← base_version_from_u32 info.base_version
  app ← app_version_from_u32 info.app_version
  ok (record {
    silicon_id = info.silicon_id;
    silicon_family = info.silicon_family;
    base_version = base;
    app_version = app;
    start_row = fw_row_start;
    size = fw_size;
    row_size = flash_row_size;
  })

unfoldable pub read_version : List ℕ → ℕ → ℕ → SiliconId → Maybe PdFirmware
read_version file_buffer flash_row_size metadata_offset ccgx = do
  (fw_row_start, fw_size) ← read_metadata file_buffer flash_row_size metadata_offset ccgx
  row ← read_256_bytes file_buffer fw_row_start flash_row_size
  parse_firmware flash_row_size fw_row_start fw_size row

-- The row size and the rows of the two metadata blocks.
abbrev pub layout : SiliconId → ℕ × ℕ × ℕ
layout ccg3 = (small_row, 0x03FF, 0x03FE)
layout ccg5 = (large_row, fw1_metadata_row, fw2_metadata_row_ccg5)
layout ccg6 = (small_row, fw1_metadata_row, fw2_metadata_row_ccg6)
layout ccg8 = (large_row, fw1_metadata_row_ccg8, fw2_metadata_row_ccg8)

unfoldable pub read_versions : List ℕ → SiliconId → Maybe PdFirmwareFile
read_versions file_buffer ccgx = do
  let (flash_row_size, f1_metadata_row, fw2_metadata_row) = layout ccgx
  backup ← read_version file_buffer flash_row_size f1_metadata_row ccgx
  main ← read_version file_buffer flash_row_size fw2_metadata_row ccgx
  ok (record { backup_fw = backup; main_fw = main })
