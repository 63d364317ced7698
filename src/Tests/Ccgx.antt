-- ===== src/Tests/Ccgx.antt =====
-- Small PD binaries.
use framework_system.Base.{
  List, [], ◌∷◌, ◌++◌, ℕ, ◌+◌, ◌*◌, ◌≤◌, ◌%◌, ◌≡◌, ◌<◌, refl, ok, panic, Returns, arith, length,
  replicate, length-replicate, index, slice, slice_from,
}
use framework_system.Ccgx.Versions.{
  ccg5, ccg6, notebook, base_version_from_u32, app_version_from_u32,
}
use framework_system.Ccgx.Metadata.{parse_metadata_cyacd, read_cy_acd_metadata}
use framework_system.Ccgx.Binary.{
  PdFirmware, read_256_bytes, parse_metadata, read_metadata, parse_firmware, read_version,
  read_versions, read_version_info,
}
use framework_system.Ccgx.Binary.Safety.{read_versions-Returns, read_versions_panics}
use framework_system.Ccgx.Binary.Fields.{IsReadFrom, read_version-IsReadFrom}

-- One row with metadata behind 0xC0, and one with a version block behind 0xE0.
abbrev two_rows : List ℕ
two_rows =
    replicate 0xC5 0
    ++ (0 ∷ 0 ∷ 0 ∷ 0 ∷ 0x34 ∷ 0x12 ∷ 0 ∷ 0 ∷ []
        ++ (replicate 9 0
            ++ (0x59 ∷ 0x43 ∷ []
                ++ (replicate 0x28 0
                    ++ (replicate 0xE0 0
                        ++ (0x05 ∷ 0 ∷ 0x07 ∷ 0x34 ∷ 0x62 ∷ 0x6E ∷ 0x1C ∷ 0x30 ∷ 0x00 ∷ 0x31 ∷ 0x1D
                              ∷ 0x00 ∷ []
                            ++ replicate 0x14 0))))))

abbrev firmware : PdFirmware
firmware = record {
  silicon_id = 0x3100;
  silicon_family = 0x1D;
  base_version = record { major = 3; minor = 4; patch = 7; build_number = 5 };
  app_version = record { application = notebook; major = 3; minor = 0; circuit = 0x1C };
  start_row = 1;
  size = 0x1234;
  row_size = 0x100;
}

two_rows-read : read_version two_rows 0x100 0 ccg5 ≡ ok firmware
unfolding read_version read_metadata read_256_bytes parse_metadata parse_metadata_cyacd
    read_cy_acd_metadata parse_firmware base_version_from_u32 app_version_from_u32 read_version_info
two_rows-read = unfold slice slice_from index in refl

read_version-IsReadFrom_example :
    IsReadFrom two_rows (firmware.start_row * 0x100 + 0xE0) firmware × (firmware.row_size ≡ 0x100)
read_version-IsReadFrom_example =
    read_version-IsReadFrom two_rows 0x100 0 ccg5 firmware two_rows-read

-- A file that is long enough for the metadata rows of CCG5.
abbrev blank : List ℕ
blank = replicate 0x20000 0

length-blank : length blank ≡ 0x20000
length-blank = length-replicate {A = ℕ} 0x20000 0

blank_whole : length blank % 0x100 ≡ 0
blank_whole = omega (arith, length-blank)

read_versions-Returns_example : Returns (read_versions blank ccg5)
read_versions-Returns_example = read_versions-Returns blank blank_whole ccg5 refl

-- A file that ends 140 bytes behind the start of the metadata row of CCG6.
abbrev cut : List ℕ
cut = replicate (0x1FE * 0x80 + 140) 0

length-cut : length cut ≡ 0x1FE * 0x80 + 140
length-cut = length-replicate {A = ℕ} (0x1FE * 0x80 + 140) 0

cut_reaches : 0x1FE * 0x80 + 0x80 ≤ length cut
cut_reaches = omega (arith, length-cut)

cut_ends : length cut < 0x1FE * 0x80 + 0x100
cut_ends = omega (arith, length-cut)

read_versions_panics_example : read_versions cut ccg6 ≡ panic
read_versions_panics_example = read_versions_panics cut cut_reaches cut_ends
