-- ===== src/Tests/Device.antt =====
-- A PD controller with 40 registers, and one that never sends data.
use framework_system.Base.{
  List, [], ◌∷◌, err, ℕ, ◌+◌, ◌^◌, ◌<◌, ◌≤◌, ◌≡◌, refl, ok, length, replicate, take, drop, none,
  some, true, arith,
}
use framework_system.Bytes.{to_le, field, from_le-to_le_u16}
use framework_system.Ec.Driver.{Driver}
use framework_system.Ccgx.Device.{
  framework16, left01, right23, i2c_address, i2c_port, i2c_passthrough_command, passthru_buffer,
  ccgx_read,
}
use framework_system.Ec.Status.{EcError}
use framework_system.Ccgx.Versions.{main_fw, ControllerVersion, base_version_from, app_version_from}
use framework_system.Ccgx.Device.{get_single_fw_ver}
use framework_system.Ccgx.Device.Firmware.{get_single_fw_ver-Controller}
use framework_system.Ccgx.Device.Reading.{Controller, ccgx_read-Controller, ccgx_read_never_ends}

abbrev registers : List ℕ
registers = 0x81 ∷ 0 ∷ 0x00 ∷ 0x21 ∷ replicate 36 7

-- The length and the register address are the last fields of the parameters.
abbrev pd : Driver
pd = record {
  State = Unit {0};
  send_command = λ command version payload s.
      (ok (0 ∷ 2 ∷ take (field payload 8 2) (drop (field payload 10 2) registers)), s);
  read_memory = λ offset length s. (err tt, s);
}

answers :
    (s : Unit {0}) (addr len : ℕ)
    → addr + len ≤ length registers
    → len ≤ 128
    → pd.send_command i2c_passthrough_command 0
        (passthru_buffer
          (i2c_port framework16 left01)
          (i2c_address framework16 left01)
          (i2c_address framework16 left01 + 2 ^ 15)
          addr
          len)
        s
      ≡ (ok (0 ∷ 2 ∷ take len (drop addr registers)), s)
unfolding passthru_buffer to_le field
answers s addr len h k =
    rw (from_le-to_le_u16 addr (omega arith), from_le-to_le_u16 len (omega arith)) refl

left_fits : i2c_address framework16 left01 < 2 ^ 15
unfolding i2c_address
left_fits = omega arith

abbrev controller : Controller
controller = record {
  driver = pd;
  platform = framework16;
  port = left01;
  registers = registers;
  address_fits = left_fits;
  registers_fit = omega arith;
  answers = answers;
}

ccgx_read-Controller_example :
    ccgx_read pd framework16 left01 true 2 2 2 [] tt ≡ some (ok (take 2 (drop 2 registers)), tt)
ccgx_read-Controller_example = ccgx_read-Controller controller true 2 2 tt (omega arith)

abbrev silent : Driver
silent = record {
  State = Unit {0};
  send_command = λ command version payload s. (ok (0 ∷ 2 ∷ []), s);
  read_memory = λ offset length s. (err tt, s);
}

ccgx_read_never_ends_example : ccgx_read silent framework16 right23 true 1000 0 8 [] tt ≡ none
unfolding i2c_address
ccgx_read_never_ends_example =
    ccgx_read_never_ends silent framework16 right23 true 1000 0 8 tt (omega arith) (omega arith)
      (λ addr len. refl) (omega arith)

main_version_read :
    (v : ControllerVersion) × (get_single_fw_ver pd framework16 left01 true 8 main_fw tt
      ≡ some (ok v, tt))
    × (base_version_from {E = EcError} (take 4 (take 8 (drop 0x20 registers))) ≡ ok v.base)
    × (app_version_from {E = EcError} (drop 4 (take 8 (drop 0x20 registers))) ≡ ok v.app)
main_version_read = get_single_fw_ver-Controller controller true main_fw tt (omega arith)
