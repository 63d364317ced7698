-- ===== src/Tests/Cards.antt =====
-- A card that logs the reports it gets.
use framework_system.Base.{ℕ, List, [], ◌∷◌, ◌++◌, length, replicate, ◌≡◌, refl, ok, none, arith}
use framework_system.Bytes.{field, from_le}
use framework_system.Hid.{HidApi, decode_fw_info, read_info, command_report, cmd_flash}
use framework_system.Hid.Flashing.{flash_firmware_image}
use framework_system.Hid.Writes.{
  Card, Wrote, rows_of, rows_in, closing_reports, flash_firmware_image-Wrote,
}
use framework_system.Hid.Update.{card_pid}
use framework_system.Util.{find_sequence, find_from, same_bytes}

-- The answer to the report 0xE0: the signature, and the operating mode 1.
abbrev description : List ℕ
description = (0xE0 ∷ 0 ∷ b'C' ∷ b'Y' ∷ 1 ∷ []) ++ replicate 59 0

abbrev logger : HidApi
logger = record {
  State = List (List ℕ);
  HidDevice = Unit {0};
  new = λ s. (ok tt, s);
  set_blocking_mode = λ device blocking s. (ok tt, s);
  send_feature_report = λ device report s. (ok tt, s);
  get_feature_report = λ device buf s. (ok description, s);
  write = λ device report s. (ok (length report), s ++ (report ∷ []));
  refresh_devices = λ s. (ok tt, s);
  device_list = λ s. [];
  open_device = λ info s. (ok tt, s);
}

decoded : decode_fw_info description ≡ ok (read_info description)
unfolding decode_fw_info read_info field from_le
decoded = refl

abbrev card : Card
card = record {
  api = logger;
  device = tt;
  reports = λ s. s;
  wrote = λ report s. s ++ (report ∷ []);
  count = length;
  description = description;
  info = read_info description;
  accepts = λ s report. refl;
  logs = λ s report. refl;
  describes = λ s. refl;
  is_info = decoded;
}

-- Six rows: two are written from row 1 on, and row 5 is the metadata.
abbrev file : List ℕ
file = replicate 768 0xA5

flash_firmware_image-Wrote_example :
    Wrote card []
      ((command_report cmd_flash 0x50 ∷ [])
        ++ rows_of 2 1 (rows_in card file 1 2)
        ++ closing_reports card 5 (rows_in card file 5 1) 2)
      (flash_firmware_image logger tt file 1 5 2 2)
flash_firmware_image-Wrote_example =
    flash_firmware_image-Wrote card file 1 5 2 2 [] (omega arith) (omega arith)

no_name : card_pid (0 ∷ 1 ∷ 2 ∷ []) ≡ none
unfolding card_pid find_sequence find_from same_bytes
no_name = refl
