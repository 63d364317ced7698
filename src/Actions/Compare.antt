-- ===== src/Actions/Compare.antt =====
-- commandline/mod.rs: `compare_version`, and get_pd_controller_versions (ccgx/mod.rs).
pub mod Retimers
use framework_system.Base.{
  ℕ, List, [], ◌∷◌, Bool, true, false, ◌||◌, if◌then◌else◌, Option, none, some, Maybe, ok, err,
  panic,
}
use framework_system.Text.{display_number}
use framework_system.Util.{same_bytes}
use framework_system.Guid.{Guid}
use framework_system.Cli.Options.{
  HardwareDeviceType, bios, ec, pd0, pd1, rtm01, rtm23, ac_left, ac_right,
}
use framework_system.Ccgx.Device.{Platform, PdPort, left01, right23, get_fw_versions}
use framework_system.Ccgx.Versions.{ControllerFirmwares}
use framework_system.Esrt.Kinds.{
  same_guid, tgl_retimer01_guid, tgl_retimer23_guid, adl_retimer01_guid, adl_retimer23_guid,
  rpl_retimer01_guid, rpl_retimer23_guid,
}
use framework_system.Esrt.Table.{EsrtTable, EsrtResourceEntry}
use framework_system.Ec.Driver.{Driver}
use framework_system.Ec.Select.{print_err}
use framework_system.Ec.Control.{version_info}
use framework_system.Power.Ports.{is_charging}
use framework_system.Actions.Act.{
  Machine, platform_of_machine, config_of_machine, Act, return, and_then, attempt, ask, wait,
  caught,
}
use framework_system.Actions.Show.{contains, active_fw_ver}

-- 0 where the versions match.
abbrev pub verdict : Bool → ℕ
verdict matches = if matches then 0 else 1

abbrev unknown_text : List ℕ
unknown_text = b'U' ∷ b'N' ∷ b'K' ∷ b'N' ∷ b'O' ∷ b'W' ∷ b'N' ∷ []

-- `format!("{}", charging as i32)`
abbrev charging_text : Bool → List ℕ
charging_text true = b'1' ∷ []
charging_text false = b'0' ∷ []

-- The two patterns on the class of an entry.
abbrev pub is_left_retimer : Guid → Bool
is_left_retimer g =
    same_guid g tgl_retimer01_guid
    || same_guid g adl_retimer01_guid
    || same_guid g rpl_retimer01_guid

abbrev pub is_right_retimer : Guid → Bool
is_right_retimer g =
    same_guid g tgl_retimer23_guid
    || same_guid g adl_retimer23_guid
    || same_guid g rpl_retimer23_guid

abbrev pub is_rtm01 : Option HardwareDeviceType → Bool
is_rtm01 (some rtm01) = true
is_rtm01 _ = false

abbrev pub is_rtm23 : Option HardwareDeviceType → Bool
is_rtm23 (some rtm23) = true
is_rtm23 _ = false

-- Whether an entry makes the loop return.
unfoldable pub entry_matches : Option HardwareDeviceType → List ℕ → EsrtResourceEntry → Bool
unfolding same_bytes
entry_matches device version entry =
    let found = contains (display_number entry.fw_version) version in
    if is_left_retimer entry.fw_class
    then (if is_rtm01 device then found else false)
    else if is_right_retimer entry.fw_class
    then (if is_rtm23 device then found else false)
    else false

-- The loop over the entries of the ESRT, and the 1 behind it.
unfoldable pub compare_entries : Option HardwareDeviceType → List ℕ → List EsrtResourceEntry → ℕ
unfolding entry_matches
compare_entries device version [] = 1
compare_entries device version (entry ∷ entries) =
    let rest = compare_entries device version entries in
    if entry_matches device version entry then 0 else rest

unfoldable pub compare_esrt : Maybe EsrtTable → Option HardwareDeviceType → List ℕ → Maybe ℕ
unfolding compare_entries
compare_esrt (ok table) device version = ok (compare_entries device version table.entries)
compare_esrt (err _) device version = ok 1
compare_esrt panic device version = panic

-- The block on the BIOS: `none` where it does not return. Without a BIOS struct it panics, for every
-- device.
unfoldable pub compare_bios : Machine → Option HardwareDeviceType → List ℕ → Maybe (Option ℕ)
unfolding same_bytes
compare_bios x device version = elim x.bios_versions [
  | none ↦ ok none
  | some [] ↦ panic
  | some (found ∷ _) ↦ elim device [
    | some bios ↦ ok (some (verdict (same_bytes (x.to_uppercase version) (x.to_uppercase found))))
    | some _ ↦ ok none
    | none ↦ ok none
  ]
]

module _ (D : Driver) (x : Machine) where
  -- `PdController::get_fw_versions`, where a platform that is not known is a panic.
  unfoldable pub controller_versions : PdPort → Act D ControllerFirmwares
  unfolding config_of_machine print_err
  controller_versions port = elim (config_of_machine x) [
    | ok platform ↦ wait D print_err (get_fw_versions D platform port x.debug x.fuel)
    | err _ ↦ return D panic
    | panic ↦ return D panic
  ]

  -- Controller 01, and controller 23.
  unfoldable pub get_pd_controller_versions : Act D (ControllerFirmwares × ControllerFirmwares)
  unfolding controller_versions
  get_pd_controller_versions =
      and_then D (controller_versions left01)
        λ c01. and_then D (controller_versions right23) λ c23. return D (ok (c01, c23))

  abbrev build_version : Maybe (List ℕ) → Maybe (List ℕ)
  build_version (ok text) = ok text
  build_version (err _) = ok unknown_text
  build_version panic = panic

  abbrev compare_active : List ℕ → ControllerFirmwares → Maybe ℕ
  compare_active version firmwares =
      ok (verdict (contains (active_fw_ver (platform_of_machine x) firmwares) version))

  -- `esrt::get_esrt()` and the loop
  abbrev pub behind_match : Option HardwareDeviceType → List ℕ → Act D ℕ
  behind_match device version = return D (compare_esrt x.esrt device version)

  -- The case of a PD controller, which is skipped where the versions cannot be read.
  abbrev compare_pd :
      Option HardwareDeviceType
      → List ℕ
      → (ControllerFirmwares × ControllerFirmwares → ControllerFirmwares)
      → Act D ℕ
  compare_pd device version side = and_then D (attempt D get_pd_controller_versions) λ found.
      elim found [
        | some both ↦ return D (compare_active version (side both))
        | none ↦ behind_match device version
      ]

  abbrev compare_charging : List ℕ → (Bool × Bool → Bool) → Act D ℕ
  compare_charging version side = and_then D (ask D caught (is_charging D x.debug)) λ found.
      return D (elim found [
        | some both ↦ ok (verdict (same_bytes (charging_text (side both)) version))
        | none ↦ ok 1
      ])

  -- The match on the device.
  unfoldable pub compare_device : Option HardwareDeviceType → List ℕ → Act D ℕ
  unfolding same_bytes active_fw_ver platform_of_machine compare_esrt get_pd_controller_versions
      print_err
  compare_device (some ec) version =
      and_then D (ask D (λ r. build_version (print_err r)) (version_info D))
        λ ver. return D (ok (verdict (contains ver version)))
  compare_device (some pd0) version = compare_pd (some pd0) version (λ both. both.0)
  compare_device (some pd1) version = compare_pd (some pd1) version (λ both. both.1)
  compare_device (some ac_left) version = compare_charging version (λ both. both.1)
  compare_device (some ac_right) version = compare_charging version (λ both. both.0)
  compare_device device version = behind_match device version

  -- The code with which the tool ends.
  unfoldable pub compare_version : Option HardwareDeviceType → List ℕ → Act D ℕ
  unfolding compare_bios compare_device
  compare_version device version =
      and_then D (return D (compare_bios x device version)) λ found. elim found [
        | some code ↦ return D (ok code)
        | none ↦ compare_device device version
      ]
