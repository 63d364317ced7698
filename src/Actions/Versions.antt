-- ===== src/Actions/Versions.antt =====
-- commandline/mod.rs: `print_versions` and print_pd_details, and print_fw_info (ccgx/device.rs).
use framework_system.Base.{
  ℕ, List, [], ◌∷◌, Bool, true, false, not, ◌||◌, if◌then◌else◌, Option, none, some, Maybe, ok, err,
  panic, slice, slice_from, ◌>>=◌,
}
use framework_system.Guid.{Guid}
use framework_system.Esrt.Kinds.{same_guid, mtl_retimer01_guid, mtl_retimer23_guid}
use framework_system.Esrt.Table.{EsrtTable, EsrtResourceEntry}
use framework_system.Csme.{CsmeInfo}
use framework_system.Ccgx.Device.{
  Platform, PdPort, left01, right23, ControlRegister, boot_loader_version, firmware1_version,
  firmware2_version, register_address, ccgx_read, get_silicon_id, get_device_info,
}
use framework_system.Ccgx.Versions.{
  BaseVersion, AppVersion, ControllerFirmwares, FwMode, backup_fw, main_fw, base_version_from,
  app_version_from,
}
use framework_system.Ec.Status.{EcResult}
use framework_system.Ec.Driver.{Driver}
use framework_system.Ec.Control.{EcCurrentImage, version_info, flash_version}
use framework_system.Power.Ports.{read_pd_version}
use framework_system.Actions.Act.{
  Machine, platform_of_machine, config_of_machine, Act, return, and_then, attempt, ask, wait,
  caught, unwrapped,
}
use framework_system.Actions.Show.{show_version, show_app, show_base}
use framework_system.Actions.Compare.{get_pd_controller_versions, is_left_retimer, is_right_retimer}

-- One controller: the text of the main and of the backup version, and whether each is active.
abbrev PdLines : Type 0
PdLines = (List ℕ × Bool) × (List ℕ × Bool)

abbrev is_main : FwMode → Bool
is_main main_fw = true
is_main _ = false

abbrev is_backup : FwMode → Bool
is_backup backup_fw = true
is_backup _ = false

unfoldable pub pd_lines : Option Platform → ControllerFirmwares → PdLines
unfolding show_base show_app
pd_lines platform firmwares = (
  (show_version platform firmwares.main, is_main firmwares.active_fw),
  (show_version platform firmwares.backup, is_backup firmwares.active_fw),
)

-- What is printed of the PD controllers: both sides in full, or what the EC says, or nothing.
pub data PdReport : Type 0 where
  from_controllers : PdLines → PdLines → PdReport
  from_ec : List ℕ → List ℕ → PdReport
  pd_unknown : PdReport

pub data Side : Type 0 where
  left right : Side

unfoldable pub retimer_side : Guid → Option Side
retimer_side class =
    if is_left_retimer class || same_guid class mtl_retimer01_guid
    then some left
    else if is_right_retimer class || same_guid class mtl_retimer23_guid
    then some right
    else none

-- The lines of the retimers; `Unknown` is printed where there is none.
unfoldable pub retimer_lines : List EsrtResourceEntry → List (Side × ℕ)
unfolding retimer_side
retimer_lines [] = []
retimer_lines (entry ∷ entries) =
    let rest = retimer_lines entries in
    elim (retimer_side entry.fw_class) [ none ↦ rest | some side ↦ (side, entry.fw_version) ∷ rest ]

-- What `print_versions` shows of EC, PD controllers, retimers and CSME.
pub record VersionReport : Type 0 where
  pub build_version : Option (List ℕ)
  pub flash : Option (List ℕ × List ℕ × EcCurrentImage)
  pub controllers : PdReport
  pub retimers : List (Side × ℕ)
  pub csme : Option CsmeInfo

-- `bios_entries.first().unwrap()`
abbrev pub first_bios : Option (List (List ℕ)) → Maybe (Unit {0})
first_bios none = ok tt
first_bios (some []) = panic
first_bios (some (found ∷ _)) = ok tt

abbrev pub retimers_of : Option EsrtTable → List (Side × ℕ)
retimers_of none = []
retimers_of (some table) = retimer_lines table.entries

-- What is printed of one PD controller.
pub record PdDetails : Type 0 where
  pub silicon : Option ℕ
  pub device : Option (FwMode × ℕ)
  pub versions : Option (List (BaseVersion × AppVersion))

module _ (D : Driver) (x : Machine) where
  unfoldable pub report_controllers : Act D PdReport
  unfolding get_pd_controller_versions pd_lines platform_of_machine show_app
  report_controllers = and_then D (attempt D (get_pd_controller_versions D x)) λ found. elim found [
    | some both ↦
        let platform = platform_of_machine x in
        return D (ok (from_controllers (pd_lines platform both.0) (pd_lines platform both.1)))
    | none ↦ and_then D (ask D caught (read_pd_version D)) λ versions. return D (
        ok (elim versions [
          | some main ↦ from_ec (show_app main.controller01.app) (show_app main.controller23.app)
          | none ↦ pd_unknown
        ]))
  ]

  unfoldable pub print_versions : Act D VersionReport
  unfolding report_controllers
  print_versions = and_then D (return D (first_bios x.bios_versions)) λ _.
      and_then D (ask D caught (version_info D)) λ build_version.
        and_then D (ask D caught (flash_version D)) λ flash.
          and_then D report_controllers λ controllers. return D (
            caught x.esrt >>= λ esrt. caught x.csme >>= λ csme. ok (record {
              build_version = build_version;
              flash = flash;
              controllers = controllers;
              retimers = retimers_of esrt;
              csme = csme;
            }))

  -- The versions of `print_fw_info` that are read in a register.
  abbrev both_versions : List ℕ → Maybe (BaseVersion × AppVersion)
  both_versions bytes = slice bytes 0 4 >>= λ low. base_version_from low >>= λ base.
      slice_from bytes 4 >>= λ high. app_version_from high >>= λ app. ok (base, app)

  abbrev register_bytes :
      Platform → PdPort → ControlRegister → D.State → Option (EcResult (List ℕ) × D.State)
  register_bytes platform port register =
      ccgx_read D platform port x.debug x.fuel (register_address register) 8 []

  -- The bootloader's version, and those of the two firmwares; nothing where the first is not read.
  unfoldable pub print_fw_info :
      Platform → PdPort → Act D (Option (List (BaseVersion × AppVersion)))
  print_fw_info platform port =
      and_then D (wait D caught (register_bytes platform port boot_loader_version)) λ found.
        elim found [
          | none ↦ return D (ok none)
          | some bytes0 ↦ and_then D (return D (both_versions bytes0)) λ bootloader.
              and_then D (wait D unwrapped (register_bytes platform port firmware1_version))
                λ bytes1. and_then D (return D (both_versions bytes1)) λ backup.
                  and_then D (wait D unwrapped (register_bytes platform port firmware2_version))
                    λ bytes2.
                      and_then D (return D (both_versions bytes2))
                        λ main. return D (ok (some (bootloader ∷ backup ∷ main ∷ [])))
        ]

  -- `print_single_pd_details`, where a platform that is not known is a panic.
  unfoldable pub print_single_pd_details : PdPort → Act D PdDetails
  unfolding config_of_machine print_fw_info
  print_single_pd_details port = elim (config_of_machine x) [
    | ok platform ↦
        and_then D (wait D caught (get_silicon_id D platform port x.debug x.fuel)) λ silicon.
          and_then D (wait D caught (get_device_info D platform port x.debug x.fuel)) λ device.
            and_then D (print_fw_info platform port) λ versions.
              return D (ok (record { silicon = silicon; device = device; versions = versions }))
    | err _ ↦ return D panic
    | panic ↦ return D panic
  ]

  -- Nothing on a machine that is not a Framework.
  unfoldable pub print_pd_details : Bool → Act D (Option (PdDetails × PdDetails))
  unfolding print_single_pd_details
  print_pd_details is_framework =
      if not is_framework
      then return D (ok none)
      else (and_then D (print_single_pd_details left01) λ pd_01.
          and_then D (print_single_pd_details right23) λ pd_23. return D (ok (some (pd_01, pd_23))))
