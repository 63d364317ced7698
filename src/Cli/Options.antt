-- ===== src/Cli/Options.antt =====
-- The `Cli` struct (commandline/mod.rs) and the value types of its options.
use Prim.Native.String.{String}
use framework_system.Base.{ℕ, List, Bool, Option}

pub data LevelFilter : Type 0 where
  off error warn info debug trace : LevelFilter

pub data ConsoleArg : Type 0 where
  recent follow : ConsoleArg

pub data RebootEcArg : Type 0 where
  reboot jump_ro jump_rw cancel_jump disable_jump : RebootEcArg

pub data FpBrightnessArg : Type 0 where
  high medium low : FpBrightnessArg

pub data InputDeckModeArg : Type 0 where
  auto off on : InputDeckModeArg

-- `HardwareDeviceType`
pub data HardwareDeviceType : Type 0 where
  bios ec pd0 pd1 rtm01 rtm23 ac_left ac_right : HardwareDeviceType

-- `CrosEcDriverType`
pub data CrosEcDriverType : Type 0 where
  portio cros_ec windows : CrosEcDriverType

pub record Cli : Type 0 where
  pub verbosity : LevelFilter
  pub paginate : Bool
  pub versions : Bool
  pub version : Bool
  pub features : Bool
  pub esrt : Bool
  pub device : Option HardwareDeviceType
  pub compare_version : Option String
  pub power : Bool
  pub thermal : Bool
  pub sensors : Bool
  pub pdports : Bool
  pub privacy : Bool
  pub pd_info : Bool
  pub dp_hdmi_info : Bool
  pub dp_hdmi_update : Option String
  pub audio_card_info : Bool
  pub pd_bin : Option String
  pub ec_bin : Option String
  pub capsule : Option String
  pub dump : Option String
  pub ho2_capsule : Option String
  pub dump_ec_flash : Option String
  pub flash_ec : Option String
  pub flash_ro_ec : Option String
  pub flash_rw_ec : Option String
  pub driver : Option CrosEcDriverType
  pub test : Bool
  pub intrusion : Bool
  pub inputmodules : Bool
  pub input_deck_mode : Option InputDeckModeArg
  pub charge_limit : Option (Option ℕ)
  pub get_gpio : Option String
  pub fp_brightness : Option (Option FpBrightnessArg)
  pub kblight : Option (Option ℕ)
  pub console : Option ConsoleArg
  pub reboot_ec : Option RebootEcArg
  pub hash : Option String
  pub pd_addrs : Option (ℕ × ℕ)
  pub pd_ports : Option (ℕ × ℕ)
  pub has_mec : Option Bool
  pub help : Bool
  pub info : Bool
  pub allupdate : Bool
  pub raw_command : List String
