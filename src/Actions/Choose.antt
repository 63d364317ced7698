-- ===== src/Actions/Choose.antt =====
-- commandline/mod.rs: the chain of conditions in `run_with_args`, which picks one action.
use Prim.Native.String.{String}
use framework_system.Base.{ℕ, if◌then◌else◌, Option, none, some}
use framework_system.Cli.Options.{
  Cli, ConsoleArg, RebootEcArg, FpBrightnessArg, InputDeckModeArg, HardwareDeviceType,
}
use framework_system.Ec.Flash.{EcFlashType, full, ro, rw}

-- The branches, with the values that they use.
pub data Action : Type 0 where
  help versions version features esrt intrusion inputmodules test power thermal : Action
  sensors pdports info pd_info dp_hdmi_info audio_card_info privacy idle : Action
  compare_version : Option HardwareDeviceType → String → Action
  input_deck_mode : InputDeckModeArg → Action
  charge_limit kblight : Option ℕ → Action
  fp_brightness : Option FpBrightnessArg → Action
  get_gpio dp_hdmi_update pd_bin ec_bin ho2_capsule dump_ec_flash hash : String → Action
  console : ConsoleArg → Action
  reboot_ec : RebootEcArg → Action
  capsule : String → Option String → Action
  flash : EcFlashType → String → Action

-- `if let Some(value) = ...`, and what the chain goes on with.
abbrev pub if_some : {A : Type 0} → Option A → (A → Action) → Action → Action
if_some none act next = next
if_some (some value) act next = act value

-- From the option `pd_bin` on.
unfoldable pub choose_file : Cli → Action
choose_file args = if_some args.pd_bin pd_bin (
    if_some args.ec_bin ec_bin (
      if_some args.capsule (λ path. capsule path args.dump)
        (if_some args.ho2_capsule ho2_capsule (
          if_some args.dump_ec_flash dump_ec_flash (
            if_some args.flash_ec (flash full) (
              if_some args.flash_ro_ec (flash ro)
                (if_some args.flash_rw_ec (flash rw) (if_some args.hash hash idle))))))))

-- From the option `test` on.
unfoldable pub choose_report : Cli → Action
unfolding choose_file
choose_report args =
    if args.test
    then test
    else if args.power
    then power
    else if args.thermal
    then thermal
    else if args.sensors
    then sensors
    else if args.pdports
    then pdports
    else if args.info
    then info
    else if args.pd_info
    then pd_info
    else if args.dp_hdmi_info
    then dp_hdmi_info
    else if_some args.dp_hdmi_update dp_hdmi_update (
        if args.audio_card_info
        then audio_card_info
        else if args.privacy
        then privacy
        else choose_file args)

-- From the option `input_deck_mode` on.
unfoldable pub choose_setting : Cli → Action
unfolding choose_report
choose_setting args = if_some args.input_deck_mode input_deck_mode (
    if_some args.charge_limit charge_limit (
      if_some args.get_gpio get_gpio (
        if_some args.fp_brightness fp_brightness (
          if_some args.kblight kblight (
            if_some args.console console
              (if_some args.reboot_ec reboot_ec (choose_report args)))))))

unfoldable pub choose : Cli → Action
unfolding choose_setting
choose args =
    if args.help
    then help
    else if args.versions
    then versions
    else if args.version
    then version
    else if args.features
    then features
    else if args.esrt
    then esrt
    else if_some args.compare_version (compare_version args.device) (
        if args.intrusion
        then intrusion
        else if args.inputmodules
        then inputmodules
        else choose_setting args)
