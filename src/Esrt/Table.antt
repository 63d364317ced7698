-- ===== src/Esrt/Table.antt =====
-- esrt/mod.rs: the table, from the files of Linux and from the memory of UEFI and FreeBSD.
pub mod Memory
pub mod Counts
use framework_system.Base.{
  ℕ, zero, suc, ◌+◌, ◌*◌, ◌^◌, List, [], ◌∷◌, ◌++◌, length, take, drop, leb, ◌==◌, ◌&&◌, Bool, true,
  false, if◌then◌else◌, Option, none, some, Maybe, Result, ok, err, panic, assert, ◌>>=◌, ◌>>◌,
}
use framework_system.Bytes.{field}
use framework_system.Cli.Numbers.{parse_codes}
use framework_system.Guid.{Guid, from_bytes}
use framework_system.Guid.Hex.{from_str_radix}
use framework_system.Text.{trim}
use framework_system.Ec.Port.{debug_assert}
use framework_system.Esrt.{radix_16, guid_from_str}

abbrev pub firmware_resource_version : ℕ
firmware_resource_version = 1

pub data ResourceType : Type 0 where
  unknown system_firmware device_firmware uefi_driver fmp dell_tpm_firmware : ResourceType

-- `ResourceType::from_int`
unfoldable pub resource_type_from : ℕ → ResourceType
resource_type_from i =
    if i == 1
    then system_firmware
    else if i == 2
    then device_firmware
    else if i == 3
    then uefi_driver
    else if i == 4
    then fmp
    else if i == 5
    then dell_tpm_firmware
    else unknown

pub data UpdateStatus : Type 0 where
  success unsuccessful insufficient_resources incorrect_version invalid_format : UpdateStatus
  auth_error power_event_ac power_event_battery reserved : UpdateStatus

-- `UpdateStatus::from_int`
unfoldable pub update_status_from : ℕ → UpdateStatus
update_status_from i =
    if i == 0
    then success
    else if i == 1
    then unsuccessful
    else if i == 2
    then insufficient_resources
    else if i == 3
    then incorrect_version
    else if i == 4
    then invalid_format
    else if i == 5
    then auth_error
    else if i == 6
    then power_event_ac
    else if i == 7
    then power_event_battery
    else reserved

pub record EsrtResourceEntry : Type 0 where
  pub fw_class : Guid
  pub fw_type : ℕ
  pub fw_version : ℕ
  pub lowest_supported_fw_version : ℕ
  pub capsule_flags : ℕ
  pub last_attempt_version : ℕ
  pub last_attempt_status : ℕ

pub record EsrtTable : Type 0 where
  pub resource_count : ℕ
  pub resource_count_max : ℕ
  pub resource_version : ℕ
  pub entries : List EsrtResourceEntry

-- An entry of the directory: whether it is a directory itself, and what reading its files gives.
pub record SysfsEntry : Type 0 where
  pub is_dir : Bool
  pub fw_class : Maybe (List ℕ)
  pub fw_type : Maybe (List ℕ)
  pub fw_version : Maybe (List ℕ)
  pub lowest_supported_fw_version : Maybe (List ℕ)
  pub capsule_flags : Maybe (List ℕ)
  pub last_attempt_version : Maybe (List ℕ)
  pub last_attempt_status : Maybe (List ℕ)

-- `expect`
abbrev expected : {A : Type 0} → Maybe A → Maybe A
expected (ok a) = ok a
expected (err absent) = panic
expected panic = panic

abbrev expected_some : Option ℕ → Maybe ℕ
expected_some none = panic
expected_some (some n) = ok n

-- `text.trim().parse::<u32>().expect(..)`
unfoldable pub parse_number : List ℕ → Maybe ℕ
parse_number text = expected_some (parse_codes (2 ^ 32) (trim text))

-- `trim_start_matches("0x")`, which removes all that follow each other.
unfoldable pub trim_0x : List ℕ → List ℕ
trim_0x [] = []
trim_0x (c ∷ []) = c ∷ []
trim_0x (c ∷ d ∷ cs) = let rest = trim_0x cs in if c == b'0' && d == b'x' then rest else c ∷ d ∷ cs

unfoldable pub read_sysfs_entry : SysfsEntry → Maybe EsrtResourceEntry
read_sysfs_entry e = do
  fw_class ← e.fw_class
  fw_type ← e.fw_type
  fw_version ← e.fw_version
  lowest ← e.lowest_supported_fw_version
  raw_capsule_flags ← e.capsule_flags
  attempt_version ← e.last_attempt_version
  attempt_status ← e.last_attempt_status
  class ← expected (guid_from_str fw_class)
  kind ← parse_number fw_type
  version ← parse_number fw_version
  lowest_version ← parse_number lowest
  flags ← expected (radix_16 (2 ^ 32) (trim (trim_0x raw_capsule_flags)))
  last_version ← parse_number attempt_version
  last_status ← parse_number attempt_status
  ok (record {
    fw_class = class;
    fw_type = kind;
    fw_version = version;
    lowest_supported_fw_version = lowest_version;
    capsule_flags = flags;
    last_attempt_version = last_version;
    last_attempt_status = last_status;
  })

abbrev pub empty_table : EsrtTable
empty_table = record {
  resource_count = 0;
  resource_count_max = 0;
  resource_version = firmware_resource_version;
  entries = [];
}

-- `resource_count += 1; resource_count_max += 1; entries.push(esrt)`
abbrev pub push_entry : EsrtTable → EsrtResourceEntry → EsrtTable
push_entry table entry = record {
  resource_count = table.resource_count + 1;
  resource_count_max = table.resource_count_max + 1;
  resource_version = table.resource_version;
  entries = table.entries ++ (entry ∷ []);
}

-- The loop over the directory; an entry that cannot be listed is an error.
unfoldable pub read_entries : EsrtTable → List (Maybe SysfsEntry) → Maybe EsrtTable
read_entries table [] = ok table
read_entries table (listed ∷ rest) = listed >>= λ e.
    (if e.is_dir then (read_sysfs_entry e >>= λ entry. ok (push_entry table entry)) else ok table)
    >>= λ next. read_entries next rest

-- The directory, if it is one, as the result of `read_dir`.
unfoldable pub esrt_from_sysfs : Option (Maybe (List (Maybe SysfsEntry))) → Maybe EsrtTable
esrt_from_sysfs none = ok empty_table
esrt_from_sysfs (some dir) = dir >>= λ listing. read_entries empty_table listing

-- An entry is read as 40 bytes, in the order of its fields. The struct is not `repr(C)`: the order in
-- memory is assumed here, as it is by the code, which casts a pointer to the table.
unfoldable pub read_entry : List ℕ → EsrtResourceEntry
read_entry bytes = record {
  fw_class = from_bytes (take 16 bytes);
  fw_type = field bytes 16 4;
  fw_version = field bytes 20 4;
  lowest_supported_fw_version = field bytes 24 4;
  capsule_flags = field bytes 28 4;
  last_attempt_version = field bytes 32 4;
  last_attempt_status = field bytes 36 4;
}

unfoldable pub entries_from : ℕ → List ℕ → List EsrtResourceEntry
entries_from zero bytes = []
entries_from (suc n) bytes = read_entry bytes ∷ entries_from n (drop 40 bytes)

-- The bytes from the pointer on; where fewer are given than the table has, the model panics.
unfoldable pub esrt_from_buf : Bool → List ℕ → Maybe EsrtTable
esrt_from_buf debug bytes =
    let count = field bytes 0 4 in
    assert (leb (16 + count * 40) (length bytes))
    >> (if debug then assert (field bytes 8 8 == firmware_resource_version) else ok tt)
    >> ok (record {
      resource_count = count;
      resource_count_max = field bytes 4 4;
      resource_version = field bytes 8 8;
      entries = entries_from count (drop 16 bytes);
    })
