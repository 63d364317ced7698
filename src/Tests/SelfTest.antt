-- ===== src/Tests/SelfTest.antt =====
-- An EC whose flash starts as a legacy image does, and holds zeros behind it.
use framework_system.Base.{
  ℕ, List, [], ◌++◌, replicate, take, true, false, ◌==◌, if◌then◌else◌, ok, err, slice, slice_from,
  ◌≡◌, refl,
}
use framework_system.Bytes.{field, to_le}
use framework_system.Ec.Driver.{
  Driver, flash_notified_command, send_request, send_command_vec_extra,
}
use framework_system.Util.{same_bytes}
use framework_system.Ec.Flash.{
  flash_notify, access_spi, read_ec_flash, read_chunks, read_ec_flash_chunk,
}
use framework_system.Ec.SelfTest.{
  legacy_start, test_ec_flash_read, must_read_flash, check_first_row, check_rw_row, test_program,
  check_flags,
}
use framework_system.Ec.SelfTest.Verdicts.{known_start, test_ec_flash_read-known}

abbrev first_row : List ℕ
first_row = legacy_start ++ replicate 124 0xFF

abbrev board : Driver
board = record {
  State = Unit {0};
  send_command = λ command version payload s. (
    ok (
        if command == flash_notified_command
        then []
        else if field payload 0 4 == 0
        then first_row
        else replicate 128 0x00),
    s,
  );
  read_memory = λ offset length s. (err tt, s);
}

passed : (test_ec_flash_read board false tt).0 ≡ ok tt
unfolding test_ec_flash_read flash_notify send_request must_read_flash read_ec_flash read_chunks
    read_ec_flash_chunk slice field to_le check_first_row slice_from check_rw_row test_program
    check_flags same_bytes
passed = refl

first_read : (must_read_flash board 0 0x80 (flash_notify board access_spi tt).1).0 ≡ ok first_row
unfolding must_read_flash read_ec_flash read_chunks read_ec_flash_chunk send_command_vec_extra slice
    field to_le
first_read = refl

board_known : known_start (take 4 first_row) ≡ true
board_known = test_ec_flash_read-known board false first_row tt first_read passed
