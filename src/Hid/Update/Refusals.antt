-- ===== src/Hid/Update/Refusals.antt =====
-- What `flash_firmware` (ccgx/hid.rs) does with a file that is for no card.
use framework_system.Base.{List, ℕ, Maybe, ok, err, panic, none, ◌≡◌, refl}
use framework_system.Ccgx.Versions.{ccg3}
use framework_system.Ccgx.Binary.{read_versions, PdFirmwareFile}
use framework_system.Hid.{HidApi}
use framework_system.Hid.Update.{card_pid, flash_for, flash_firmware, on_versions}

module _ (H : HidApi) where
  on_versions-none :
      (fw_binary : List ℕ) (versions : Maybe PdFirmwareFile) (s : H.State)
      → (on_versions H fw_binary none versions s).1 ≡ s
  unfolding flash_for
  on_versions-none fw_binary (ok versions) s = refl
  on_versions-none fw_binary (err absent) s = refl
  on_versions-none fw_binary panic s = refl

  -- A file that has the name of neither card is refused: `flash_firmware` opens no device and sends
  -- nothing, whatever else the file holds.
  flash_firmware-untouched :
      (fw_binary : List ℕ) (s : H.State)
      → card_pid fw_binary ≡ none
      → (flash_firmware H fw_binary s).1 ≡ s
  unfolding flash_firmware
  flash_firmware-untouched fw_binary s h =
      rw h (on_versions-none fw_binary (read_versions fw_binary ccg3) s)
