-- ===== src/Actions/SelfTest.antt =====
-- commandline/mod.rs: `selftest`, flash_ec and dump_ec_flash.
pub mod Passed
use Prim.Native.String.{String}
use framework_system.Base.{
  ℕ, List, [], ◌∷◌, Bool, true, false, if◌then◌else◌, Option, none, some, Maybe, Result, ok, err,
  panic,
}
use framework_system.Ccgx.Device.{
  Platform, PdPort, left01, right23, get_silicon_id, get_device_info, get_fw_versions,
}
use framework_system.Ec.Status.{EcResult}
use framework_system.Ec.Driver.{Driver}
use framework_system.Ec.Select.{print_err}
use framework_system.Ec.Control.{dump_mem_region, check_mem_magic, version_info, flash_version}
use framework_system.Ec.SelfTest.{test_ec_flash_read}
use framework_system.Ec.Flash.{EcFlashType, reflash, get_entire_ec_flash}
use framework_system.Power.{power_info}
use framework_system.Power.Ports.{UsbPdPowerInfo, get_pd_info, read_pd_version}
use framework_system.Actions.Act.{
  Machine, platform_of_machine, config_of_machine, mec_of_machine, Act, return, and_then, ask, wait,
  write_file, ignored, unwrapped,
}

-- `infos.iter().any(|x| x.is_err())`
abbrev pub any_is_err : List (EcResult UsbPdPowerInfo) → Bool
any_is_err [] = false
any_is_err (ok info ∷ infos) = any_is_err infos
any_is_err (err e ∷ infos) = true
any_is_err (panic ∷ infos) = any_is_err infos

-- The result is handed on with `?`, and its value is only printed.
abbrev pub must : {A : Type 0} → Maybe A → Maybe (Unit {0})
must (ok a) = ok tt
must (err e) = err tt
must panic = panic

abbrev pub must_print : {A : Type 0} → EcResult A → Maybe (Unit {0})
must_print (ok a) = ok tt
must_print (err e) = err tt
must_print panic = panic

abbrev no_errors : EcResult (List (EcResult UsbPdPowerInfo)) → Maybe (Unit {0})
no_errors (ok infos) = if any_is_err infos then err tt else ok tt
no_errors (err e) = panic
no_errors panic = panic

module _ (D : Driver) (x : Machine) where
  -- The three reads of a PD controller, where a platform that is not known is a panic.
  unfoldable pub test_controller : PdPort → Act D (Unit {0})
  unfolding config_of_machine
  test_controller port = elim (config_of_machine x) [
    | ok platform ↦
        and_then D (wait D must_print (get_silicon_id D platform port x.debug x.fuel)) λ _.
          and_then D (wait D must_print (get_device_info D platform port x.debug x.fuel))
            λ _. wait D must_print (get_fw_versions D platform port x.debug x.fuel)
    | err _ ↦ return D panic
    | panic ↦ return D panic
  ]

  -- The flash of the EC, its memory map, and what it says of power.
  unfoldable pub test_ec : Act D (Unit {0})
  unfolding mec_of_machine
  test_ec = and_then D (ask D ignored (dump_mem_region D)) λ _.
      and_then D (ask D must (check_mem_magic D)) λ _.
        and_then D (ask D must_print (version_info D)) λ _.
          and_then D (ask D must (flash_version D)) λ _.
            and_then D (return D (mec_of_machine x)) λ has_mec.
              and_then D (ask D must_print (test_ec_flash_read D has_mec)) λ _.
                and_then D (ask D must (power_info D x.debug)) λ _.
                  and_then D (ask D no_errors (get_pd_info D x.debug 4))
                    λ _. ask D ignored (read_pd_version D)

  -- `None` where a step fails.
  unfoldable pub selftest : Act D (Unit {0})
  unfolding platform_of_machine test_ec test_controller
  selftest = elim (platform_of_machine x) [
    | none ↦ return D (err tt)
    | some _ ↦
        and_then D test_ec λ _. and_then D (test_controller left01) λ _. test_controller right23
  ]

  -- Only a build for UEFI flashes; the others read the file for nothing.
  unfoldable pub flash_ec : String → EcFlashType → Act D (Unit {0})
  flash_ec path flash_type =
      if x.uefi
      then elim (x.read_file path) [
        | none ↦ return D (ok tt)
        | some image ↦ ask D ignored (reflash D x.captures image flash_type)
      ]
      else return D (ok tt)

  unfoldable pub dump_ec_flash : String → Act D (Unit {0})
  unfolding write_file
  dump_ec_flash path =
      and_then D (ask D unwrapped (get_entire_ec_flash D))
        λ flash_bin. write_file D x path flash_bin
