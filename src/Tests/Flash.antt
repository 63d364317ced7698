-- ===== src/Tests/Flash.antt =====
-- An EC that logs the writes to its flash.
use framework_system.Base.{
  List, [], ◌∷◌, ◌++◌, ℕ, ◌/◌, ◌*◌, ◌<◌, ◌^◌, ◌≡◌, ◌≢◌, refl, ok, err, length, replicate, take,
  drop, ◌==◌, if◌then◌else◌, none, false, arith,
}
use framework_system.Bytes.{to_le, field, from_le-to_le_u32}
use framework_system.EcBinary.{Captures}
use framework_system.Ec.Status.{device_error}
use framework_system.Ec.Driver.{Driver, flash_info_command, flash_write_command}
use framework_system.Ec.Flash.{EcFlashType, full, write_ec_flash, check_version, reflash}
use framework_system.Ec.Flash.Chunks.{Flash, Wrote, pieces, bytes_of, write_ec_flash-Wrote}
use framework_system.Ec.Flash.Safety.{reflash-untouched}

abbrev Log : Type 0
Log = List (ℕ × List ℕ)

-- Answers the commands for the size of the flash and for a write.
abbrev logger : Driver
logger = record {
  State = Log;
  send_command = λ command version payload s.
      if command == flash_info_command
      then (ok (replicate 24 0), s)
      else if command == flash_write_command
      then (ok [], s ++ ((field payload 0 4, drop 8 payload) ∷ []))
      else (err (device_error "unknown" []), s);
  read_memory = λ offset length s. (err tt, s);
}

answers :
    (s : Log) (offset : ℕ) (bytes : List ℕ)
    → offset < 2 ^ 32
    → logger.send_command flash_write_command 0
        ((to_le 4 offset ++ to_le 4 (length bytes)) ++ bytes)
        s
      ≡ (ok [], s ++ ((offset, bytes) ∷ []))
unfolding to_le field
answers s offset bytes h = rw (from_le-to_le_u32 offset h) refl

abbrev logging : Flash
logging = record {
  driver = logger;
  info = replicate 24 0;
  writes = λ s. s;
  written = λ offset bytes s. s ++ ((offset, bytes) ∷ []);
  info_size = refl;
  answers_info = λ s. refl;
  answers_write = answers;
  logs = λ s offset bytes. refl;
}

-- An image of 300 bytes: 256 of them are written.
abbrev image : List ℕ
image = replicate 300 0xA5

write_ec_flash-Wrote_example :
    Wrote logging []
      (pieces (length image / 128) 0x40000 image)
      (write_ec_flash logger 0x40000 image)
    × (bytes_of (pieces (length image / 128) 0x40000 image) ≡ take (length image / 128 * 128) image)
write_ec_flash-Wrote_example = write_ec_flash-Wrote logging 0x40000 image [] (omega arith)

abbrev no_groups : Captures
no_groups text = none

reflash-untouched_example : (reflash logger no_groups image full []).1 ≡ []
reflash-untouched_example = reflash-untouched logger no_groups image full [] only_rw
  where
    only_rw : full ≡ EcFlashType.rw → check_version logger no_groups image false ≢ ok tt
    only_rw h = cc
