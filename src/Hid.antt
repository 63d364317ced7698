-- ===== src/Hid.antt =====
-- ccgx/hid.rs: the HDMI and DisplayPort expansion cards, which are flashed over HID.
pub mod Flashing
pub mod Update
pub mod Writes
use framework_system.Base.{
  ℕ, ◌+◌, List, [], ◌∷◌, ◌++◌, length, take, drop, replicate, bit_and, not, Bool, true, false, ◌==◌,
  ◌&&◌, ◌||◌, leb, if◌then◌else◌, Option, none, some, Maybe, Result, ok, err, panic, assert, unwrap,
  ◌>>=◌, ◌>>◌,
}
use framework_system.Base.Calls.{Call, pure, ◌≫=◌, map_result, expect, ignored}
use framework_system.Bytes.{field, to_le}
use framework_system.Ccgx.Versions.{
  FwMode, main_fw, boot_loader, backup_fw, fw_mode_try_from, BaseVersion, base_version_from,
}

abbrev pub ccg_usage_page : ℕ
ccg_usage_page = 0xFFEE

abbrev pub framework_vid : ℕ
framework_vid = 0x32AC

abbrev pub hdmi_card_pid : ℕ
hdmi_card_pid = 0x0002

abbrev pub dp_card_pid : ℕ
dp_card_pid = 0x0003

abbrev pub row_size : ℕ
row_size = 128

abbrev pub fw1_start : ℕ
fw1_start = 0x0030

abbrev pub fw2_start : ℕ
fw2_start = 0x0200

abbrev pub fw1_metadata : ℕ
fw1_metadata = 0x03FF

abbrev pub fw2_metadata : ℕ
fw2_metadata = 0x03FE

-- What the operating system lists of a device.
pub record DeviceInfo : Type 0 where
  pub vendor_id : ℕ
  pub product_id : ℕ
  pub usage_page : ℕ
  pub serial_number : Option (List ℕ)

-- The hidapi crate: its errors are `err tt`, and its state stands for the devices.
pub record HidApi : Type 1 where
  pub State : Type 0
  pub HidDevice : Type 0
  -- `HidApi::new`
  pub new : Call State (Unit {0}) (Unit {0})
  pub set_blocking_mode : HidDevice → Bool → Call State (Unit {0}) (Unit {0})
  pub send_feature_report : HidDevice → List ℕ → Call State (Unit {0}) (Unit {0})
  -- The buffer, which is filled.
  pub get_feature_report : HidDevice → List ℕ → Call State (Unit {0}) (List ℕ)
  pub write : HidDevice → List ℕ → Call State (Unit {0}) ℕ
  pub refresh_devices : Call State (Unit {0}) (Unit {0})
  pub device_list : State → List DeviceInfo
  pub open_device : DeviceInfo → Call State (Unit {0}) HidDevice

-- The packed struct of 60 bytes.
pub record HidFirmwareInfo : Type 0 where
  pub report_id : ℕ
  pub signature : List ℕ
  pub operating_mode : ℕ
  pub bootloader_info : ℕ
  pub bootmode_reason : ℕ
  pub silicon_id : ℕ
  pub bl_version : List ℕ
  pub image_1_ver : List ℕ
  pub image_2_ver : List ℕ
  pub image_1_row : ℕ
  pub image_2_row : ℕ
  pub device_uid : List ℕ

pub data CmdId : Type 0 where
  cmd_jump cmd_flash cmd_0x04 cmd_0x06 : CmdId

-- `CmdId as u8`
abbrev pub cmd_code : CmdId → ℕ
cmd_code cmd_jump = 0x01
cmd_code cmd_flash = 0x02
cmd_code cmd_0x04 = 0x04
cmd_code cmd_0x06 = 0x06

pub data CmdParam : Type 0 where
  jump_to_alternate_image bridge_mode flash_write jump_to_bootloader enable reset : CmdParam

-- `CmdParam as u8`
abbrev pub param_code : CmdParam → ℕ
param_code jump_to_alternate_image = 0x41
param_code bridge_mode = 0x42
param_code flash_write = 0x46
param_code jump_to_bootloader = 0x4A
param_code enable = 0x50
param_code reset = 0x52

pub data ReportIdCmd : Type 0 where
  e0_read e1_cmd e2_write_row e3 e4 : ReportIdCmd

-- `ReportIdCmd as u8`
abbrev pub report_code : ReportIdCmd → ℕ
report_code e0_read = 0xE0
report_code e1_cmd = 0xE1
report_code e2_write_row = 0xE2
report_code e3 = 0xE3
report_code e4 = 0xE4

abbrev piece : List ℕ → ℕ → ℕ → List ℕ
piece buf offset n = take n (drop offset buf)

abbrev is_signature : List ℕ → Bool
is_signature (c ∷ y ∷ []) = c == b'C' && y == b'Y'
is_signature _ = false

unfoldable pub read_info : List ℕ → HidFirmwareInfo
read_info buf = record {
  report_id = field buf 0 1;
  signature = piece buf 2 2;
  operating_mode = field buf 4 1;
  bootloader_info = field buf 5 1;
  bootmode_reason = field buf 6 1;
  silicon_id = field buf 8 4;
  bl_version = piece buf 12 8;
  image_1_ver = piece buf 20 8;
  image_2_ver = piece buf 28 8;
  image_1_row = field buf 36 4;
  image_2_row = field buf 40 4;
  device_uid = piece buf 44 6;
}

unfoldable pub decode_fw_info : List ℕ → Maybe HidFirmwareInfo
decode_fw_info buf =
    assert (leb 60 (length buf))
    >> assert ((read_info buf).report_id == report_code e0_read)
    >> assert (is_signature (read_info buf).signature)
    >> ok (read_info buf)

-- The bytes of a command.
abbrev pub command_report : CmdId → ℕ → List ℕ
command_report cmd_id cmd_param =
    report_code e1_cmd ∷ cmd_code cmd_id ∷ cmd_param ∷ 0x00 ∷ 0xCC ∷ 0xCC ∷ 0xCC ∷ 0xCC ∷ []

module _ (H : HidApi) where
  unfoldable pub send_command : H.HidDevice → CmdId → ℕ → Call H.State (Unit {0}) ℕ
  send_command device cmd_id cmd_param = H.write device (command_report cmd_id cmd_param)

  unfoldable pub flashing_mode : H.HidDevice → Call H.State (Unit {0}) (Unit {0})
  flashing_mode device =
      expect (send_command device cmd_flash (param_code enable)) ≫= λ _. pure (ok tt)

  unfoldable pub magic_unlock : H.HidDevice → Call H.State (Unit {0}) (Unit {0})
  magic_unlock device =
      expect (H.set_blocking_mode device true)
      ≫= (λ _. expect (
          H.send_feature_report device
            (report_code e4 ∷ 0x42 ∷ 0x43 ∷ 0x59 ∷ 0x00 ∷ 0x00 ∷ 0x00 ∷ 0x0B ∷ [])))
      ≫= λ _. ignored (send_command device cmd_0x06 (param_code bridge_mode))

  unfoldable pub get_fw_info : H.HidDevice → Call H.State (Unit {0}) HidFirmwareInfo
  get_fw_info device =
      expect (H.get_feature_report device (report_code e0_read ∷ replicate 63 0)) ≫= λ buf.
      flashing_mode device ≫= λ _. pure (decode_fw_info buf)

-- What `print_fw_info` prints of the two images: the active one, the other one, and whether each is
-- valid.
pub record FwSummary : Type 0 where
  pub active_ver : BaseVersion
  pub active_valid : Bool
  pub inactive_ver : BaseVersion
  pub inactive_valid : Bool
  pub mode : FwMode

unfoldable pub print_fw_info : HidFirmwareInfo → Maybe (Option FwSummary)
print_fw_info info = do
  assert (info.report_id == report_code e0_read)
  if not (is_signature info.signature) then ok none else (do
    bl_ver ← base_version_from info.bl_version
    base_version_1 ← base_version_from info.image_1_ver
    base_version_2 ← base_version_from info.image_2_ver
    mode ← unwrap (fw_mode_try_from info.operating_mode)
    ok (some (summary base_version_1 base_version_2 mode)))
  where
    image_1_valid : Bool
    image_1_valid = bit_and info.bootmode_reason 0x04 == 0

    image_2_valid : Bool
    image_2_valid = bit_and info.bootmode_reason 0x08 == 0

    summary : BaseVersion → BaseVersion → FwMode → FwSummary
    summary v1 v2 mode = elim mode [
      | backup_fw ↦ record {
        active_ver = v1;
        active_valid = image_1_valid;
        inactive_ver = v2;
        inactive_valid = image_2_valid;
        mode = backup_fw;
      }
      | other ↦ record {
        active_ver = v2;
        active_valid = image_2_valid;
        inactive_ver = v1;
        inactive_valid = image_1_valid;
        mode = other;
      }
    ]
