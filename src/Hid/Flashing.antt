-- ===== src/Hid/Flashing.antt =====
-- ccgx/hid.rs: finding the cards, and flashing them.
use framework_system.Base.{
  ℕ, zero, suc, ◌+◌, ◌*◌, ◌/◌, ◌%◌, ◌^◌, List, [], ◌∷◌, ◌++◌, length, take, drop, Bool, true, false,
  ◌==◌, ◌&&◌, ◌||◌, if◌then◌else◌, Option, none, some, Maybe, Result, ok, err, panic, assert, slice,
}
use framework_system.Base.Calls.{Call, pure, ◌≫=◌, map_result, expect}
use framework_system.Bytes.{to_le}
use framework_system.Util.{same_bytes}
use framework_system.Hid.{
  HidApi, DeviceInfo, HidFirmwareInfo, magic_unlock, get_fw_info, send_command, cmd_0x04, cmd_jump,
  param_code, reset, flash_write, report_code, e2_write_row, ccg_usage_page, framework_vid,
  hdmi_card_pid, dp_card_pid, row_size,
}

pub data CardName : Type 0 where
  hdmi_expansion_card display_port_expansion_card : CardName

unfoldable pub device_name : ℕ → ℕ → Option CardName
device_name vid pid =
    if vid == framework_vid && pid == hdmi_card_pid
    then some hdmi_expansion_card
    else if vid == framework_vid && pid == dp_card_pid
    then some display_port_expansion_card
    else none

-- `slice::contains`
abbrev pub contains : List ℕ → ℕ → Bool
contains [] x = false
contains (y ∷ ys) x = y == x || contains ys x

-- `sn.is_none() || sn == dev_info.serial_number()`
abbrev pub has_serial : Option (List ℕ) → Option (List ℕ) → Bool
has_serial none serial = true
has_serial (some sn) none = false
has_serial (some sn) (some serial) = same_bytes sn serial

-- The test of `find_devices`, outside FreeBSD.
unfoldable pub is_match : List ℕ → Option (List ℕ) → DeviceInfo → Bool
is_match filter_devs sn info =
    info.vendor_id == framework_vid
    && contains filter_devs info.product_id
    && info.usage_page == ccg_usage_page
    && has_serial sn info.serial_number

unfoldable pub find_devices : List DeviceInfo → List ℕ → Option (List ℕ) → List DeviceInfo
find_devices [] filter_devs sn = []
find_devices (info ∷ infos) filter_devs sn =
    let rest = find_devices infos filter_devs sn in
    if is_match filter_devs sn info then info ∷ rest else rest

-- The buffer of `write_row`; `copy_from_slice` needs a whole row.
unfoldable pub row_report : ℕ → List ℕ → Maybe (List ℕ)
row_report row_no row =
    if length row == row_size
    then ok (
        (report_code e2_write_row ∷ param_code flash_write ∷ [])
        ++ to_le 2 (row_no % 2 ^ 16)
        ++ row)
    else panic

module _ (H : HidApi) where
  unfoldable pub write_row : H.HidDevice → ℕ → List ℕ → Call H.State (Unit {0}) ℕ
  write_row device row_no row = pure (row_report row_no row) ≫= λ buffer. H.write device buffer

  -- The chunks of the slice that are left, and the number of the next row.
  unfoldable pub write_rows : H.HidDevice → ℕ → ℕ → List ℕ → Call H.State (Unit {0}) (Unit {0})
  write_rows device zero row_no fw_slice = pure (ok tt)
  write_rows device (suc left) row_no fw_slice =
      pure (assert (length (take row_size fw_slice) == row_size))
      ≫= (λ _. expect (write_row device row_no (take row_size fw_slice)))
      ≫= λ _. write_rows device left (row_no + 1) (drop row_size fw_slice)

  unfoldable pub flash_firmware_image :
      H.HidDevice → List ℕ → ℕ → ℕ → ℕ → ℕ → Call H.State (Unit {0}) (Unit {0})
  flash_firmware_image device fw_binary start_row metadata_row rows image_no =
      pure (slice fw_binary (start_row * row_size) ((start_row + rows) * row_size)) ≫= λ fw_slice.
      pure (slice fw_binary (metadata_row * row_size) ((metadata_row + 1) * row_size))
      ≫= λ metadata_slice. get_fw_info H device ≫= λ info.
          write_rows device ((length fw_slice + 127) / row_size) start_row fw_slice ≫= λ _.
          expect (write_row device metadata_row metadata_slice) ≫= λ _.
          expect (send_command H device cmd_0x04 image_no) ≫= λ _.
          expect (send_command H device cmd_jump (param_code reset)) ≫= λ _. pure (ok tt)

  -- A device that is open is unlocked, and asked for its firmware.
  abbrev unlocked : H.HidDevice → Call H.State (Unit {0}) (H.HidDevice × HidFirmwareInfo)
  unlocked device =
      magic_unlock H device ≫= λ _. get_fw_info H device ≫= λ info. pure (ok (device, info))

  -- `Result::ok`: a device that does not open is waited for.
  abbrev if_opened : Result (Unit {0}) H.HidDevice → Result (Unit {0}) (Option H.HidDevice)
  if_opened (ok device) = ok (some device)
  if_opened (err e) = ok none
  if_opened panic = panic

  abbrev first_match : List DeviceInfo → Option DeviceInfo
  first_match [] = none
  first_match (info ∷ infos) = some info

  -- The retries that are left.
  unfoldable pub wait_to_reappear :
      ℕ → List ℕ → List ℕ → Call H.State (Unit {0}) (H.HidDevice × HidFirmwareInfo)
  wait_to_reappear zero filter_devs sn = pure (err tt)
  wait_to_reappear (suc left) filter_devs sn = expect H.refresh_devices ≫= (λ _ s.
      try_open (first_match (find_devices (H.device_list s) filter_devs (some sn)))
        (wait_to_reappear left filter_devs sn) s)
    where
      after_open :
          Call H.State (Unit {0}) (H.HidDevice × HidFirmwareInfo)
          → Option H.HidDevice
          → Call H.State (Unit {0}) (H.HidDevice × HidFirmwareInfo)
      after_open again none = again
      after_open again (some device) = unlocked device

      try_open :
          Option DeviceInfo
          → Call H.State (Unit {0}) (H.HidDevice × HidFirmwareInfo)
          → Call H.State (Unit {0}) (H.HidDevice × HidFirmwareInfo)
      try_open none again = again
      try_open (some info) again = map_result if_opened (H.open_device info) ≫= after_open again
