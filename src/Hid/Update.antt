-- ===== src/Hid/Update.antt =====
-- ccgx/hid.rs: `flash_firmware`, which updates every card that a file is for.
pub mod Refusals
use framework_system.Base.{
  ℕ, ◌+◌, ◌/◌, List, [], ◌∷◌, ◌++◌, Bool, ◌==◌, ◌||◌, if◌then◌else◌, Option, none, some, Maybe,
  Result, ok, err, panic, assert, unwrap, ◌>>=◌, ◌>>◌, not,
}
use framework_system.Base.Calls.{Call, pure, ◌≫=◌, map_result, expect, ignored}
use framework_system.Ccgx.Versions.{ccg3}
use framework_system.Ccgx.Binary.{read_versions, PdFirmwareFile, PdFirmware}
use framework_system.Util.{find_sequence}
use framework_system.Hid.{
  HidApi, DeviceInfo, HidFirmwareInfo, magic_unlock, get_fw_info, print_fw_info, framework_vid,
  hdmi_card_pid, dp_card_pid, fw1_start, fw2_start, fw1_metadata, fw2_metadata,
}
use framework_system.Hid.Flashing.{
  device_name, find_devices, flash_firmware_image, wait_to_reappear,
}

-- Each byte with a zero behind it.
abbrev wide : List ℕ → List ℕ
wide [] = []
wide (b ∷ bs) = b ∷ 0 ∷ wide bs

-- The first word, and the last ones.
abbrev framework_text : List ℕ
framework_text = b'F' ∷ b'r' ∷ b'a' ∷ b'm' ∷ b'e' ∷ b'w' ∷ b'o' ∷ b'r' ∷ b'k' ∷ []

abbrev expansion_card_text : List ℕ
expansion_card_text =
    b' ' ∷ b'E' ∷ b'x' ∷ b'p' ∷ b'a' ∷ b'n' ∷ b's' ∷ b'i' ∷ b'o' ∷ b'n' ∷ b' ' ∷ b'C' ∷ b'a' ∷ b'r'
    ∷ b'd' ∷ []

abbrev pub dp_string : List ℕ
dp_string =
    wide framework_text
    ++ (b'6' ∷ 0x03 ∷ [])
    ++ wide (b'D' ∷ b'i' ∷ b's' ∷ b'p' ∷ b'l' ∷ b'a' ∷ b'y' ∷ b'P' ∷ b'o' ∷ b'r' ∷ b't' ∷ [])
    ++ wide expansion_card_text

abbrev pub hdmi_string : List ℕ
hdmi_string =
    wide framework_text
    ++ (b'(' ∷ 0x03 ∷ [])
    ++ wide (b'H' ∷ b'D' ∷ b'M' ∷ b'I' ∷ [])
    ++ wide expansion_card_text

-- The product that a file is for.
unfoldable pub card_pid : List ℕ → Option ℕ
card_pid fw_binary = elim (find_sequence fw_binary hdmi_string) [
  | some i ↦ some hdmi_card_pid
  | none ↦ elim (find_sequence fw_binary dp_string) [ some i ↦ some dp_card_pid | none ↦ none ]
]

-- `size / row_size`
abbrev row_count : PdFirmware → Maybe ℕ
row_count fw = if fw.row_size == 0 then panic else ok (fw.size / fw.row_size)

-- The retries of `wait_to_reappear`: 10 s, in steps of 0.5 s.
abbrev pub retries : ℕ
retries = 10000000 / 500000

module _ (H : HidApi) where
  -- The image that is not running is written: the first row, the metadata row, the rows and the
  -- number of the image.
  unfoldable pub update_image :
      List ℕ → ℕ → ℕ → ℕ → H.HidDevice → Call H.State (Unit {0}) (Unit {0})
  update_image fw_binary fw1_rows fw2_rows mode device =
      if mode == 0 || mode == 2
      then flash_firmware_image H device fw_binary fw1_start fw1_metadata fw1_rows 1
      else if mode == 1
      then flash_firmware_image H device fw_binary fw2_start fw2_metadata fw2_rows 2
      else pure panic

  -- The body of the loop over the cards.
  unfoldable pub update_card :
      List ℕ → ℕ → ℕ → List ℕ → DeviceInfo → Call H.State (Unit {0}) (Unit {0})
  update_card fw_binary fw1_rows fw2_rows filter_devs dev_info =
      pure (unwrap dev_info.serial_number) ≫= λ sn.
      pure (unwrap (device_name dev_info.vendor_id dev_info.product_id))
      ≫= (λ dev_name. expect (H.open_device dev_info))
      ≫= λ device. magic_unlock H device ≫= (λ _. get_fw_info H device) ≫= λ info.
          pure (print_fw_info info)
          ≫= (λ _. update_image fw_binary fw1_rows fw2_rows info.operating_mode device)
          ≫= (λ _. expect (wait_to_reappear H retries filter_devs sn))
          ≫= λ again. pure (print_fw_info again.1) ≫= λ _. pure (ok tt)

  unfoldable pub update_cards :
      List ℕ → ℕ → ℕ → List ℕ → List DeviceInfo → Call H.State (Unit {0}) (Unit {0})
  update_cards fw_binary fw1_rows fw2_rows filter_devs [] = pure (ok tt)
  update_cards fw_binary fw1_rows fw2_rows filter_devs (info ∷ infos) =
      update_card fw_binary fw1_rows fw2_rows filter_devs info ≫= λ _.
      update_cards fw_binary fw1_rows fw2_rows filter_devs infos

  -- A file that is none for a card ends the call with a message.
  unfoldable pub flash_for : List ℕ → PdFirmwareFile → Option ℕ → Call H.State (Unit {0}) (Unit {0})
  flash_for fw_binary versions none = pure (ok tt)
  flash_for fw_binary versions (some pid) = pure (row_count versions.backup_fw) ≫= λ fw1_rows.
      pure (row_count versions.main_fw) ≫= λ fw2_rows.
      pure (unwrap (device_name framework_vid pid)) ≫= (λ name. expect H.new) ≫= λ _ s.
      update_cards fw_binary fw1_rows fw2_rows (pid ∷ [])
        (find_devices (H.device_list s) (pid ∷ []) none) s

  abbrev pub on_versions :
      List ℕ → Option ℕ → Maybe PdFirmwareFile → Call H.State (Unit {0}) (Unit {0})
  on_versions fw_binary pid (ok versions) = flash_for fw_binary versions pid
  on_versions fw_binary pid (err absent) = pure (ok tt)
  on_versions fw_binary pid panic = pure panic

  unfoldable pub flash_firmware : List ℕ → Call H.State (Unit {0}) (Unit {0})
  flash_firmware fw_binary =
      on_versions fw_binary (card_pid fw_binary) (read_versions fw_binary ccg3)
