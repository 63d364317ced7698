-- ===== src/Cli/Clap.antt =====
-- commandline/clap_std.rs: the options of the builds for operating systems. The clap crate reads the
-- arguments into the struct; its result is what `parse` starts from.
use Prim.Native.String.{String}
use framework_system.Base.{
  ℕ, List, [], ◌∷◌, Bool, false, Option, none, some, Result, ok, err, panic, ◌>>=◌,
}
use framework_system.Cli.Options.{
  Cli, LevelFilter, ConsoleArg, RebootEcArg, FpBrightnessArg, InputDeckModeArg, HardwareDeviceType,
  CrosEcDriverType,
}

-- A path of the system: `none` is one that is no UTF-8 text.
abbrev pub OsPath : Type 0
OsPath = Option String

pub record ClapCli : Type 0 where
  pub verbosity : LevelFilter
  pub versions : Bool
  pub version : Bool
  pub features : Bool
  pub esrt : Bool
  pub device : Option HardwareDeviceType
  pub compare_version : Option String
  pub power : Bool
  pub thermal : Bool
  pub sensors : Bool
  pub pdports : Bool
  pub info : Bool
  pub pd_info : Bool
  pub dp_hdmi_info : Bool
  pub dp_hdmi_update : Option OsPath
  pub audio_card_info : Bool
  pub privacy : Bool
  pub pd_bin : Option OsPath
  pub ec_bin : Option OsPath
  pub capsule : Option OsPath
  pub dump : Option OsPath
  pub ho2_capsule : Option OsPath
  pub dump_ec_flash : Option OsPath
  pub flash_ec : Option OsPath
  pub flash_ro_ec : Option OsPath
  pub flash_rw_ec : Option OsPath
  pub intrusion : Bool
  pub inputmodules : Bool
  pub input_deck_mode : Option InputDeckModeArg
  pub charge_limit : Option (Option ℕ)
  pub get_gpio : Option String
  pub fp_brightness : Option (Option FpBrightnessArg)
  pub kblight : Option (Option ℕ)
  pub console : Option ConsoleArg
  pub reboot_ec : Option RebootEcArg
  pub hash : Option OsPath
  pub driver : Option CrosEcDriverType
  pub pd_addrs : List ℕ
  pub pd_ports : List ℕ
  pub has_mec : Option Bool
  pub test : Bool

-- `into_os_string().into_string().unwrap()`. An error is the code that the process exits with.
abbrev pub path_text : Option OsPath → Result ℕ (Option String)
path_text none = ok none
path_text (some none) = panic
path_text (some (some text)) = ok (some text)

-- Two values, or none; any other number ends the process.
abbrev pub pair_of : List ℕ → Result ℕ (Option (ℕ × ℕ))
pair_of [] = ok none
pair_of (x ∷ []) = err 1
pair_of (x ∷ y ∷ []) = ok (some (x, y))
pair_of (x ∷ y ∷ z ∷ zs) = err 1

unfoldable pub parse : ClapCli → Result ℕ Cli
parse args = do
  pd_addrs ← pair_of args.pd_addrs
  pd_ports ← pair_of args.pd_ports
  dp_hdmi_update ← path_text args.dp_hdmi_update
  pd_bin ← path_text args.pd_bin
  ec_bin ← path_text args.ec_bin
  capsule ← path_text args.capsule
  dump ← path_text args.dump
  ho2_capsule ← path_text args.ho2_capsule
  dump_ec_flash ← path_text args.dump_ec_flash
  flash_ec ← path_text args.flash_ec
  flash_ro_ec ← path_text args.flash_ro_ec
  flash_rw_ec ← path_text args.flash_rw_ec
  hash ← path_text args.hash
  ok (record {
    verbosity = args.verbosity;
    paginate = false;
    versions = args.versions;
    version = args.version;
    features = args.features;
    esrt = args.esrt;
    device = args.device;
    compare_version = args.compare_version;
    power = args.power;
    thermal = args.thermal;
    sensors = args.sensors;
    pdports = args.pdports;
    privacy = args.privacy;
    pd_info = args.pd_info;
    dp_hdmi_info = args.dp_hdmi_info;
    dp_hdmi_update = dp_hdmi_update;
    audio_card_info = args.audio_card_info;
    pd_bin = pd_bin;
    ec_bin = ec_bin;
    capsule = capsule;
    dump = dump;
    ho2_capsule = ho2_capsule;
    dump_ec_flash = dump_ec_flash;
    flash_ec = flash_ec;
    flash_ro_ec = flash_ro_ec;
    flash_rw_ec = flash_rw_ec;
    driver = args.driver;
    test = args.test;
    intrusion = args.intrusion;
    inputmodules = args.inputmodules;
    input_deck_mode = args.input_deck_mode;
    charge_limit = args.charge_limit;
    get_gpio = args.get_gpio;
    fp_brightness = args.fp_brightness;
    kblight = args.kblight;
    console = args.console;
    reboot_ec = args.reboot_ec;
    hash = hash;
    pd_addrs = pd_addrs;
    pd_ports = pd_ports;
    has_mec = args.has_mec;
    help = false;
    info = args.info;
    allupdate = false;
    raw_command = [];
  })
