-- ===== src/Cli/Parse.antt =====
-- commandline/uefi.rs: the loop over the arguments. Every argument is looked at, also one that an
-- option before it has taken as its value. Each group of options is a table of tests on
-- the argument, with the state that follows.
pub mod Flags
use Prim.Native.String.{String}
use text.Mathlib.Text.{◌==◌}
use mathlib.Core.List.{head?, tail}
use mathlib.Core.Option.{IsSome}
use framework_system.Base.{
  ℕ, List, [], ◌∷◌, ◌++◌, Option, none, some, Bool, true, false, not, ◌&&◌, ◌||◌,
}
use framework_system.Base.{if◌then◌else◌, length}
use framework_system.Base.{◌==◌ as nat_eq}
use framework_system.Cli.Options.{
  LevelFilter, ConsoleArg, RebootEcArg, FpBrightnessArg, InputDeckModeArg, HardwareDeviceType,
  CrosEcDriverType, Cli, recent, follow, reboot, jump_ro, jump_rw, cancel_jump, disable_jump, high,
  medium, low, auto, portio,
}
use framework_system.Cli.Values.{
  input_deck_mode_value, fp_brightness_value, console_value, reboot_ec_value, percent_value,
  brightness, bind, pair_value, device_value,
}
use framework_system.Cli.Numbers.{parse_u8, parse_u16, parse_bool}

-- The options so far, and `found_an_option`.
pub record State : Type 0 where
  pub cli : Cli
  pub found : Bool

-- A chain of `if … else if …`: the state of the first test that holds.
unfoldable pub first_match : List (Bool × State) → Option State
first_match [] = none
first_match ((test, s) ∷ arms) = if test then some s else first_match arms

abbrev pub found_with : Cli → State
found_with cli = record { cli = cli; found = true }

-- The options before the first argument. The driver is the only one that works on UEFI.
abbrev pub initial : Cli
initial = record {
  verbosity = LevelFilter.error;
  paginate = false;
  versions = false;
  version = false;
  features = false;
  esrt = false;
  device = none;
  compare_version = none;
  power = false;
  thermal = false;
  sensors = false;
  pdports = false;
  privacy = false;
  pd_info = false;
  dp_hdmi_info = false;
  dp_hdmi_update = none;
  audio_card_info = false;
  pd_bin = none;
  ec_bin = none;
  capsule = none;
  dump = none;
  ho2_capsule = none;
  dump_ec_flash = none;
  flash_ec = none;
  flash_ro_ec = none;
  flash_rw_ec = none;
  driver = some portio;
  test = false;
  intrusion = false;
  inputmodules = false;
  input_deck_mode = none;
  charge_limit = none;
  get_gpio = none;
  fp_brightness = none;
  kblight = none;
  console = none;
  reboot_ec = none;
  hash = none;
  pd_addrs = none;
  pd_ports = none;
  has_mec = none;
  help = false;
  info = false;
  allupdate = false;
  raw_command = [];
}

unfoldable pub verbosity_arms : String → State → List (Bool × State)
verbosity_arms arg s =
    (arg == "-q", record s { cli = record s.cli { verbosity = LevelFilter.off } })
    ∷ (arg == "-v", record s { cli = record s.cli { verbosity = LevelFilter.warn } })
    ∷ (arg == "-vv", record s { cli = record s.cli { verbosity = LevelFilter.info } })
    ∷ (arg == "-vvv", record s { cli = record s.cli { verbosity = LevelFilter.debug } })
    ∷ (arg == "-vvvv", record s { cli = record s.cli { verbosity = LevelFilter.trace } })
    ∷ []

unfoldable pub flag_arms : String → State → List (Bool × State)
flag_arms arg s =
    (arg == "--versions", found_with (record s.cli { versions = true }))
    ∷ (arg == "--version", found_with (record s.cli { version = true }))
    ∷ (arg == "--features", found_with (record s.cli { features = true }))
    ∷ (arg == "-b", found_with (record s.cli { paginate = true }))
    ∷ (arg == "--esrt", found_with (record s.cli { esrt = true }))
    ∷ (arg == "--power", found_with (record s.cli { power = true }))
    ∷ (arg == "--thermal", found_with (record s.cli { thermal = true }))
    ∷ (arg == "--sensors", found_with (record s.cli { sensors = true }))
    ∷ (arg == "--pdports", found_with (record s.cli { pdports = true }))
    ∷ (arg == "--allupdate", found_with (record s.cli { allupdate = true }))
    ∷ (arg == "--info", found_with (record s.cli { info = true }))
    ∷ (arg == "--intrusion", found_with (record s.cli { intrusion = true }))
    ∷ (arg == "--inputmodules", found_with (record s.cli { inputmodules = true }))
    ∷ []

-- The options with a value from a fixed set, or a percentage. `rest` are the arguments behind.
unfoldable pub value_arms : String → List String → State → List (Bool × State)
unfolding input_deck_mode_value fp_brightness_value console_value reboot_ec_value percent_value
value_arms arg rest s =
    (
      arg == "--input-deck-mode",
      found_with (record s.cli { input_deck_mode = bind (head? rest) input_deck_mode_value }),
    )
    ∷ (
      arg == "--charge-limit",
      found_with (record s.cli { charge_limit = percent_value (head? rest) }),
    )
    ∷ (arg == "--get-gpio", found_with (record s.cli { get_gpio = head? rest }))
    ∷ (arg == "--kblight", found_with (record s.cli { kblight = percent_value (head? rest) }))
    ∷ (
      arg == "--fp-brightness",
      found_with (record s.cli { fp_brightness = brightness (head? rest) }),
    )
    ∷ (arg == "--console", found_with (record s.cli { console = bind (head? rest) console_value }))
    ∷ (
      arg == "--reboot-ec",
      found_with (record s.cli { reboot_ec = bind (head? rest) reboot_ec_value }),
    )
    ∷ []

unfoldable pub late_flag_arms : String → State → List (Bool × State)
late_flag_arms arg s =
    (arg == "-t" || arg == "--test", found_with (record s.cli { test = true }))
    ∷ (arg == "-h" || arg == "--help", found_with (record s.cli { help = true }))
    ∷ (arg == "--pd-info", found_with (record s.cli { pd_info = true }))
    ∷ (arg == "--privacy", found_with (record s.cli { privacy = true }))
    ∷ []

-- The options with the name of a file, or a text.
unfoldable pub file_arms : String → List String → State → List (Bool × State)
file_arms arg rest s =
    (arg == "--pd-bin", found_with (record s.cli { pd_bin = head? rest }))
    ∷ (arg == "--ec-bin", found_with (record s.cli { ec_bin = head? rest }))
    ∷ (arg == "--capsule", found_with (record s.cli { capsule = head? rest }))
    ∷ (arg == "--dump", found_with (record s.cli { dump = head? rest }))
    ∷ (arg == "--ho2-capsule", found_with (record s.cli { ho2_capsule = head? rest }))
    ∷ (arg == "--dump-ec-flash", found_with (record s.cli { dump_ec_flash = head? rest }))
    ∷ (arg == "--flash-ec", found_with (record s.cli { flash_ec = head? rest }))
    ∷ (arg == "--flash-ro-ec", found_with (record s.cli { flash_ro_ec = head? rest }))
    ∷ (arg == "--flash-rw-ec", found_with (record s.cli { flash_rw_ec = head? rest }))
    ∷ (arg == "--hash", found_with (record s.cli { hash = head? rest }))
    ∷ []

-- `--raw-command` and `--device` leave `found_an_option` as it is.
unfoldable pub platform_arms : List String → String → List String → State → List (Bool × State)
unfolding pair_value
platform_arms args arg rest s =
    (arg == "--pd-addrs", found_with (record s.cli { pd_addrs = pair_value parse_u16 rest }))
    ∷ (arg == "--pd-ports", found_with (record s.cli { pd_ports = pair_value parse_u8 rest }))
    ∷ (arg == "--has-mec", found_with (record s.cli { has_mec = bind (head? rest) parse_bool }))
    ∷ (arg == "--raw-command", record s { cli = record s.cli { raw_command = tail args } })
    ∷ (arg == "--compare-version", found_with (record s.cli { compare_version = head? rest }))
    ∷ []

unfoldable pub device_arms : String → List String → State → List (Bool × State)
unfolding device_value
device_arms arg rest s =
    (arg == "--device", record s { cli = record s.cli { device = bind (head? rest) device_value } })
    ∷ []

abbrev pub or_keep : Option State → State → State
or_keep (some s) old = s
or_keep none old = old

-- All options.
unfoldable pub arms : List String → String → List String → State → List (Bool × State)
unfolding verbosity_arms flag_arms value_arms late_flag_arms file_arms platform_arms device_arms
arms args arg rest s =
    verbosity_arms arg s
    ++ (flag_arms arg s
        ++ (value_arms arg rest s
            ++ (late_flag_arms arg s
                ++ (file_arms arg rest s
                    ++ (platform_arms args arg rest s ++ device_arms arg rest s)))))

-- One round of the loop. An unknown argument changes nothing.
unfoldable pub step : List String → String → List String → State → State
step args arg rest s = or_keep (first_match (arms args arg rest s)) s

unfoldable pub loop : List String → List String → State → State
loop args [] s = s
loop args (arg ∷ rest) s = loop args rest (step args arg rest s)

-- `-b` alone asks for the help.
unfoldable pub finish : List String → Cli → Cli
finish args cli = if nat_eq (length args) 1 && cli.paginate then record cli { help = true } else cli

-- Without arguments the help is shown.
unfoldable pub start : List String → State
start args = record { cli = record initial { help = nat_eq (length args) 0 }; found = false }

unfoldable pub parse : List String → Cli
parse args = finish args (loop args args (start args)).cli
