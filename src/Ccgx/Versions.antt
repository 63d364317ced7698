-- ===== src/Ccgx/Versions.antt =====
-- The silicon families, and the version numbers that four bytes hold.
pub mod Words
use framework_system.Base.{ℕ, ◌/◌, List, [], ◌∷◌, Result, ok, ◌>>=◌, index, bit_and, ◌==◌, ◌&&◌}
use framework_system.Base.{if◌then◌else◌, take, drop, Option, none, some}
use framework_system.Bytes.{from_le, to_le}

pub data SiliconId : Type 0 where
  ccg3 ccg5 ccg6 ccg8 : SiliconId

-- `SiliconId as u16`
abbrev pub silicon_family : SiliconId → ℕ
silicon_family ccg3 = 0x1D00
silicon_family ccg5 = 0x2100
silicon_family ccg6 = 0x3000
silicon_family ccg8 = 0x3580

pub record BaseVersion : Type 0 where
  pub major : ℕ
  pub minor : ℕ
  pub patch : ℕ
  pub build_number : ℕ

-- `BaseVersion::from(&[u8])`
unfoldable pub base_version_from {ℓ} : {E : Type ℓ} → List ℕ → Result E BaseVersion
unfolding from_le
base_version_from bytes = do
  b0 ← index bytes 0
  b1 ← index bytes 1
  b2 ← index bytes 2
  b3 ← index bytes 3
  ok (record {
    build_number = from_le (b0 ∷ b1 ∷ []);
    patch = b2;
    major = bit_and b3 0xF0 / 16;
    minor = bit_and b3 0x0F;
  })

-- `BaseVersion::from(u32)`
unfoldable pub base_version_from_u32 {ℓ} : {E : Type ℓ} → ℕ → Result E BaseVersion
unfolding base_version_from to_le
base_version_from_u32 word = base_version_from (to_le 4 word)

pub data Application : Type 0 where
  notebook monitor aa invalid : Application

pub record AppVersion : Type 0 where
  pub application : Application
  pub major : ℕ
  pub minor : ℕ
  pub circuit : ℕ

-- The match on `[data[1], data[0]]`.
unfoldable pub application_from : ℕ → ℕ → Application
application_from c1 c0 =
    if c1 == b'n' && c0 == b'b'
    then notebook
    else if c1 == b'm' && c0 == b'd'
    then monitor
    else if c1 == b'a' && c0 == b'a'
    then aa
    else invalid

-- `AppVersion::from(&[u8])`
unfoldable pub app_version_from {ℓ} : {E : Type ℓ} → List ℕ → Result E AppVersion
unfolding application_from
app_version_from bytes = do
  b1 ← index bytes 1
  b0 ← index bytes 0
  b2 ← index bytes 2
  b3 ← index bytes 3
  ok (record {
    application = application_from b1 b0;
    circuit = b2;
    major = bit_and b3 0xF0 / 16;
    minor = bit_and b3 0x0F;
  })

-- `AppVersion::from(u32)`
unfoldable pub app_version_from_u32 {ℓ} : {E : Type ℓ} → ℕ → Result E AppVersion
unfolding app_version_from to_le
app_version_from_u32 word = app_version_from (to_le 4 word)

pub record ControllerVersion : Type 0 where
  pub base : BaseVersion
  pub app : AppVersion

pub data FwMode : Type 0 where
  boot_loader backup_fw main_fw : FwMode

-- `FwMode::try_from(u8)`; `none` is `Err(byte)`.
unfoldable pub fw_mode_try_from : ℕ → Option FwMode
fw_mode_try_from byte =
    if byte == 0
    then some boot_loader
    else if byte == 1
    then some backup_fw
    else if byte == 2
    then some main_fw
    else none

pub record ControllerFirmwares : Type 0 where
  pub active_fw : FwMode
  pub bootloader : ControllerVersion
  pub backup : ControllerVersion
  pub main : ControllerVersion

-- `ControllerFirmwares::active_fw`
unfoldable pub active_firmware : ControllerFirmwares → ControllerVersion
active_firmware c = elim c.active_fw [
  | main_fw ↦ c.main
  | backup_fw ↦ c.backup
  | boot_loader ↦ c.bootloader
]
