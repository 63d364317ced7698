-- ===== src/Tests/Actions.antt =====
-- A machine of the 16 inch model, with an EC on which the self test succeeds, and runs of the tool.
use framework_system.Base.{
  ℕ, List, [], ◌∷◌, ◌++◌, replicate, take, drop, true, ◌==◌, ◌≡◌, refl, if◌then◌else◌, none, some,
  ok, err, arith, slice, slice_from, index,
}
use framework_system.Bytes.{field, to_le, from_le}
use framework_system.Util.{same_bytes}
use framework_system.Smbios.{
  system_information, found, get_product_name, first_product, dmidecode_string_val, get_platform,
  platform_of, config_get, has_mec, look_up, remember, config_set,
}
use framework_system.Smbios.Invariant.{initial}
use framework_system.Ec.Driver.{Driver}
use framework_system.Ec.SelfTest.{legacy_start, flash_flags_magic, flash_flags_ver}
use framework_system.Power.Readings.{Mapped}
use framework_system.Ec.Control.{
  dump_mem_region, check_mem_magic, version_info, flash_version, current_image_from, padded_text,
}
use framework_system.EcBinary.Text.{from_utf8, is_utf8, trim_end_zeros}
use framework_system.Ec.Commands.{send, command_code}
use framework_system.Ec.Driver.{send_request, send_command_extra, send_command_vec_extra}
use framework_system.Ccgx.Device.{
  ccgx_read, decode_device_info, decode_flash_row_size, get_device_info, get_fw_versions,
  get_silicon_id, get_single_fw_ver, i2c_address, i2c_port, i2c_read, is_successful,
  passthru_buffer,
}
use framework_system.Ccgx.Versions.{
  app_version_from, application_from, base_version_from, fw_mode_try_from,
}
use framework_system.Ec.Flash.{flash_notify, read_chunks, read_ec_flash, read_ec_flash_chunk}
use framework_system.Ec.Select.{print_err}
use framework_system.Ec.SelfTest.{
  check_first_row, check_flags, check_program, check_rw_row, must_read_flash, test_ec_flash_read,
  test_program,
}
use framework_system.Power.Ports.{
  charging_type_from, check_ac, get_pd_info, parse_pd_ver, pd_info_from, read_pd_version, role_from,
}
use framework_system.Power.{is_set, power_info, read_byte, read_u32}
use framework_system.Ccgx.Device.{Platform}
use framework_system.Actions.Act.{
  Machine, platform_of_machine, config_of_machine, mec_of_machine, and_then,
}
use framework_system.Actions.SelfTest.{selftest, test_ec, test_controller}
use framework_system.Actions.SelfTest.Passed.{selftest-passed, HasKnownFlash}

-- The magic bytes in the middle of the memory map.
abbrev memory : List ℕ
memory = replicate 0x20 0 ++ (b'E' ∷ b'C' ∷ replicate 0xDD 0)

abbrev flash_at : ℕ → List ℕ
flash_at offset =
    if offset == 0
    then legacy_start ++ replicate 124 0xFF
    else if offset == 0x7F000
    then flash_flags_magic ++ (replicate 4 0 ++ (flash_flags_ver ++ replicate 116 0))
    else replicate 128 0

abbrev registers : List ℕ
registers = 0x81 ∷ 0 ∷ 0x00 ∷ 0x21 ∷ replicate 36 7

abbrev answer : ℕ → List ℕ → List ℕ
answer command payload =
    if command == 0x11
    then flash_at (field payload 0 4)
    else if command == 0x9E
    then 0 ∷ 2 ∷ take (field payload 8 2) (drop (field payload 10 2) registers)
    else if command == 0x02
    then replicate 100 0
    else if command == 0x103
    then replicate 16 0
    else []

abbrev laptop : Driver
laptop = record {
  State = Unit {0};
  send_command = λ command version payload s. (ok (answer command payload), s);
  read_memory = λ offset n s. (ok (take n (drop offset memory)), s);
}

abbrev mapped : Mapped
mapped = record {
  driver = laptop;
  memory = memory;
  size = omega arith;
  reads = λ s offset n h. refl;
}

abbrev machine : Machine
machine = record {
  debug = true;
  uefi = true;
  smbios =
      some
        (system_information (found "Framework") (found "Laptop 16 (AMD Ryzen 7040 Series)") ∷ []);
  globals = initial;
  bios_versions = none;
  esrt = err tt;
  csme = err tt;
  read_file = λ path. some (0 ∷ []);
  can_write = λ path. true;
  list_cards = ok tt;
  list_audio_cards = ok tt;
  update_cards = λ image. ok tt;
  to_uppercase = λ text. text;
  captures = λ text. none;
  fuel = 8;
}

passes : selftest laptop machine (tt, []) ≡ some (ok tt, (tt, []))
unfolding selftest test_ec test_controller and_then get_platform look_up get_product_name
    first_product dmidecode_string_val platform_of dump_mem_region check_mem_magic index
    version_info from_utf8 is_utf8 flash_version send send_request has_mec remember
    config_of_machine mec_of_machine platform_of_machine slice slice_from field from_le to_le
    ccgx_read decode_device_info decode_flash_row_size get_device_info get_fw_versions
    get_silicon_id get_single_fw_ver i2c_address i2c_port i2c_read is_successful passthru_buffer
    app_version_from application_from base_version_from fw_mode_try_from command_code
    current_image_from padded_text send_command_extra send_command_vec_extra flash_notify
    read_chunks read_ec_flash read_ec_flash_chunk print_err check_first_row check_flags
    check_program check_rw_row must_read_flash test_ec_flash_read test_program trim_end_zeros
    charging_type_from check_ac get_pd_info parse_pd_ver pd_info_from read_pd_version role_from
    is_set power_info read_byte read_u32 config_get config_set same_bytes
passes = refl

selftest-passed_example :
    ((platform : Platform) × (platform_of_machine machine ≡ some platform))
    × (take 2 (drop 0x20 memory) ≡ b'E' ∷ b'C' ∷ [])
    × HasKnownFlash mapped machine tt
selftest-passed_example = selftest-passed mapped machine (tt, []) (tt, []) passes
