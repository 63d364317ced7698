-- ===== src/Tests/Tables.antt =====
-- A resource table, its names, and CSME versions.
use Prim.Native.String.{String}
use framework_system.Base.{
  ℕ, List, [], ◌∷◌, ◌++◌, ◌≡◌, refl, ok, err, some, Maybe, Option, arith, true, false, index,
}
use framework_system.Bytes.{to_le}
use framework_system.Guid.{display, split, extend, from_values}
use framework_system.Guid.Bytes.{IsGuid}
use framework_system.Guid.Hex.{from_str_radix, digits, digit_value}
use framework_system.Cli.Numbers.{codes, parse_codes, decimal}
use framework_system.Esrt.{guid_from_str, guid_of_sections, radix_16}
use framework_system.Esrt.Kinds.{adl_retimer01_guid}
use framework_system.Esrt.Names.{guid_from_str-display}
use framework_system.Esrt.Table.{
  read_entries, read_sysfs_entry, parse_number, trim_0x, EsrtResourceEntry, EsrtTable, SysfsEntry,
  esrt_from_buf, esrt_from_sysfs,
}
use framework_system.Esrt.Table.Memory.{IsEntry, table_bytes, esrt_from_buf-table_bytes}
use framework_system.Esrt.Table.Counts.{IsCounted, esrt_from_sysfs-IsCounted}
use framework_system.Csme.{
  CsmeVersion, MeiEntry, CsmeInfo, csme_version_from, read_mei_entry, three_versions, info_from,
  is_enabled, part_number,
}
use framework_system.Csme.{display as display_version}
use framework_system.Csme.Canonical.{csme_version_from-display}
use framework_system.Csme.Enabled.{read_mei_entry-newline}
use framework_system.Text.{split_at, trim, trim_start, lines, strip_newline}
use framework_system.Util.{same_bytes}

retimer-IsGuid : IsGuid adl_retimer01_guid
retimer-IsGuid = record {
  a_fits = omega arith;
  b_fits = omega arith;
  c_fits = omega arith;
  d_length = refl;
  d_bytes = (
    omega arith,
    (
      omega arith,
      (omega arith, (omega arith, (omega arith, (omega arith, (omega arith, (omega arith, tt)))))),
    ),
  );
}

guid_from_str-display_example :
    guid_from_str (display adl_retimer01_guid ++ (10 ∷ [])) ≡ ok adl_retimer01_guid
guid_from_str-display_example = guid_from_str-display adl_retimer01_guid retimer-IsGuid

abbrev retimer : EsrtResourceEntry
retimer = record {
  fw_class = adl_retimer01_guid;
  fw_type = 2;
  fw_version = 0x105;
  lowest_supported_fw_version = 0x101;
  capsule_flags = 0;
  last_attempt_version = 0x105;
  last_attempt_status = 0;
}

abbrev table : EsrtTable
table = record {
  resource_count = 1;
  resource_count_max = 4;
  resource_version = 1;
  entries = retimer ∷ [];
}

retimer-IsEntry : IsEntry retimer
retimer-IsEntry = record {
  class = retimer-IsGuid;
  type_fits = omega arith;
  version_fits = omega arith;
  lowest_fits = omega arith;
  flags_fit = omega arith;
  attempt_version_fits = omega arith;
  attempt_status_fits = omega arith;
}

esrt_from_buf-table_bytes_example :
    esrt_from_buf true (table_bytes table (0xFF ∷ 0xFF ∷ [])) ≡ ok table
esrt_from_buf-table_bytes_example =
    esrt_from_buf-table_bytes true table (0xFF ∷ 0xFF ∷ []) (record {
      counted = refl;
      count_fits = omega arith;
      max_fits = omega arith;
      version = refl;
      entries_fit = (retimer-IsEntry, tt);
    })

-- A directory with a file, which is passed over, and the entry of a retimer.
abbrev file : SysfsEntry
file = record {
  is_dir = false;
  fw_class = err tt;
  fw_type = err tt;
  fw_version = err tt;
  lowest_supported_fw_version = err tt;
  capsule_flags = err tt;
  last_attempt_version = err tt;
  last_attempt_status = err tt;
}

abbrev line : String → Maybe (List ℕ)
line s = ok (codes s ++ (10 ∷ []))

abbrev entry : SysfsEntry
entry = record {
  is_dir = true;
  fw_class = line "a9c91b0c-c0b8-463d-a7da-a5d6ec646333";
  fw_type = line "2";
  fw_version = line "261";
  lowest_supported_fw_version = line "257";
  capsule_flags = line "0x0";
  last_attempt_version = line "261";
  last_attempt_status = line "0";
}

abbrev directory : Option (Maybe (List (Maybe SysfsEntry)))
directory = some (ok (ok file ∷ ok entry ∷ []))

abbrev collected : EsrtTable
collected = record {
  resource_count = 1;
  resource_count_max = 1;
  resource_version = 1;
  entries = retimer ∷ [];
}

directory_read : esrt_from_sysfs directory ≡ ok collected
unfolding esrt_from_sysfs read_entries read_sysfs_entry guid_from_str guid_of_sections radix_16
    parse_number trim_0x trim trim_start strip_newline split extend from_str_radix digits
    digit_value from_values to_le parse_codes decimal index
directory_read = refl

esrt_from_sysfs-IsCounted_example : IsCounted collected
esrt_from_sysfs-IsCounted_example = esrt_from_sysfs-IsCounted directory collected directory_read

abbrev version : CsmeVersion
version = record { platform = 0; major = 16; minor = 0; hotfix = 15; buildno = 1810 }

csme_version_from-display_example : csme_version_from (display_version version) ≡ ok version
csme_version_from-display_example = csme_version_from-display version (record {
  platform_fits = omega arith;
  major_fits = omega arith;
  minor_fits = omega arith;
  hotfix_fits = omega arith;
  buildno_fits = omega arith;
})

-- The files of a Linux machine.
abbrev mei : MeiEntry
mei = record {
  is_dir = true;
  dev_state = ok (codes "ENABLED" ++ (10 ∷ []));
  fw_ver =
      ok (codes "0:1.0.5.8" ++ (10 ∷ codes "0:1.0.5.8") ++ (10 ∷ codes "0:1.0.5.8") ++ (10 ∷ []));
}

abbrev short_version : CsmeVersion
short_version = record { platform = 0; major = 1; minor = 0; hotfix = 5; buildno = 8 }

abbrev info : CsmeInfo
info = record {
  enabled = false;
  main_ver = short_version;
  recovery_ver = short_version;
  fitc_ver = short_version;
}

mei_read : read_mei_entry mei ≡ ok info
unfolding read_mei_entry three_versions info_from is_enabled csme_version_from part_number split_at
    trim trim_start lines same_bytes parse_codes decimal index
mei_read = refl

newline_disables : false ≡ false
newline_disables = read_mei_entry-newline mei info (codes "ENABLED") refl mei_read
