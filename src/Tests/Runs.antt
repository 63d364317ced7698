-- ===== src/Tests/Runs.antt =====
-- Runs of the tool on a machine that is not known.
use framework_system.Base.{
  ℕ, ◌≤◌, List, [], ◌∷◌, true, false, ◌≡◌, refl, Option, none, some, ok, err, inr, ◌⊎◌, get_elem?,
  index, ◌↔◌,
}
use framework_system.Cli.Options.{Cli, CrosEcDriverType, info, rtm01}
use framework_system.Cli.Clap.{ClapCli, parse}
use framework_system.Smbios.{is_framework, get_platform, look_up, get_product_name}
use framework_system.Smbios.Invariant.{initial}
use framework_system.Ec.Flash.{EcFlashType, reflash, check_version}
use framework_system.Ec.Select.{Backend, available_drivers, new}
use framework_system.EcBinary.{read_ec_version}
use framework_system.Esrt.Kinds.{tgl_retimer01_guid, mtl_retimer01_guid}
use framework_system.Util.{same_bytes}
use framework_system.Esrt.Table.{EsrtResourceEntry}
use framework_system.Actions.Act.{Machine, Disk, and_then, is_framework_machine}
use framework_system.Actions.Choose.{choose, choose_setting, choose_report, choose_file, flash}
use framework_system.Actions.Compare.{compare_entries, entry_matches}
use framework_system.Actions.Compare.Retimers.{IsWanted, compare_entries-IsWanted}
use framework_system.Actions.SelfTest.{flash_ec}
use framework_system.Actions.Perform.{perform}
use framework_system.Actions.Run.{run_with_args, chosen_driver, configure}
use framework_system.Actions.Run.Codes.{run_with_args-code}
use framework_system.Actions.Run.Flashing.{run_with_args-kept}

abbrev no_options : ClapCli
no_options = record {
  verbosity = info;
  versions = false;
  version = false;
  features = false;
  esrt = false;
  device = none;
  compare_version = none;
  power = false;
  thermal = false;
  sensors = false;
  pdports = false;
  info = false;
  pd_info = false;
  dp_hdmi_info = false;
  dp_hdmi_update = none;
  audio_card_info = false;
  privacy = false;
  pd_bin = none;
  ec_bin = none;
  capsule = none;
  dump = none;
  ho2_capsule = none;
  dump_ec_flash = none;
  flash_ec = none;
  flash_ro_ec = none;
  flash_rw_ec = none;
  intrusion = false;
  inputmodules = false;
  input_deck_mode = none;
  charge_limit = none;
  get_gpio = none;
  fp_brightness = none;
  kblight = none;
  console = none;
  reboot_ec = none;
  hash = none;
  driver = none;
  pd_addrs = [];
  pd_ports = [];
  has_mec = none;
  test = false;
}

abbrev default_args : Cli
default_args = record {
  verbosity = info;
  paginate = false;
  versions = false;
  version = false;
  features = false;
  esrt = false;
  device = none;
  compare_version = none;
  power = false;
  thermal = false;
  sensors = false;
  pdports = false;
  privacy = false;
  pd_info = false;
  dp_hdmi_info = false;
  dp_hdmi_update = none;
  audio_card_info = false;
  pd_bin = none;
  ec_bin = none;
  capsule = none;
  dump = none;
  ho2_capsule = none;
  dump_ec_flash = none;
  flash_ec = none;
  flash_ro_ec = none;
  flash_rw_ec = none;
  driver = none;
  test = false;
  intrusion = false;
  inputmodules = false;
  input_deck_mode = none;
  charge_limit = none;
  get_gpio = none;
  fp_brightness = none;
  kblight = none;
  console = none;
  reboot_ec = none;
  hash = none;
  pd_addrs = none;
  pd_ports = none;
  has_mec = none;
  help = false;
  info = false;
  allupdate = false;
  raw_command = [];
}

parsed : parse no_options ≡ ok default_args
unfolding parse
parsed = refl

abbrev bystander : Machine
bystander = record {
  debug = true;
  uefi = true;
  smbios = none;
  globals = initial;
  bios_versions = none;
  esrt = err tt;
  csme = err tt;
  read_file = λ path. some (0 ∷ []);
  can_write = λ path. true;
  list_cards = ok tt;
  list_audio_cards = ok tt;
  update_cards = λ image. ok tt;
  to_uppercase = λ text. text;
  captures = λ text. none;
  fuel = 8;
}

-- The state of the driver counts its calls.
abbrev counting : CrosEcDriverType → Option (Backend ℕ)
counting driver =
    some
      (record { read = λ offset n s. (ok [], s); send = λ command version payload s. (ok [], s) })

abbrev start : ℕ × Disk
start = (0, [])

abbrev two : ℕ
two = 2

idle_run :
    run_with_args false false false counting bystander default_args start ≡ some (ok 0, start)
unfolding run_with_args chosen_driver new available_drivers configure choose choose_setting
    choose_report choose_file perform index
idle_run = refl

abbrev help_args : Cli
help_args = record default_args { help = true }

help_run : run_with_args false false false counting bystander help_args start ≡ some (ok 2, start)
unfolding run_with_args chosen_driver new available_drivers configure choose perform index
help_run = refl

run_with_args-code_example : (two ≤ 2) × (two ≡ 2 → (help_args.help ≡ true) × (start ≡ start))
run_with_args-code_example =
    run_with_args-code false false false counting bystander help_args start start two help_run

abbrev rw_args : Cli
rw_args = record default_args { flash_rw_ec = some "ec.bin" }

rw_chosen : choose rw_args ≡ flash EcFlashType.rw "ec.bin"
unfolding choose choose_setting choose_report choose_file
rw_chosen = refl

rw_run : run_with_args false false false counting bystander rw_args start ≡ some (ok 0, start)
unfolding run_with_args chosen_driver new available_drivers configure choose choose_setting
    choose_report choose_file perform flash_ec reflash check_version read_ec_version and_then index
rw_run = refl

-- The machine is not a Framework.
foreign : is_framework_machine (configure rw_args bystander) ≡ false
unfolding is_framework_machine is_framework get_platform configure look_up get_product_name
foreign = refl

run_with_args-kept_example : start ≡ start
run_with_args-kept_example =
    run_with_args-kept false false false counting bystander rw_args EcFlashType.rw "ec.bin" (ok 0)
      start start rw_chosen (inr (inr foreign)) rw_run

abbrev retimer : EsrtResourceEntry
retimer = record {
  fw_class = tgl_retimer01_guid;
  fw_type = 0;
  fw_version = 119;
  lowest_supported_fw_version = 0;
  capsule_flags = 0;
  last_attempt_version = 0;
  last_attempt_status = 0;
}

-- The second entry is the one that is looked for.
abbrev entries : List EsrtResourceEntry
entries = record retimer { fw_class = mtl_retimer01_guid } ∷ retimer ∷ []

compare_entries-IsWanted_example :
    ((compare_entries (some rtm01) (b'1' ∷ b'9' ∷ []) entries ≡ 0) ↔ (
      (i : ℕ) × (entry : EsrtResourceEntry) × (get_elem? entries i ≡ some entry)
      × IsWanted (some rtm01) (b'1' ∷ b'9' ∷ []) entry))
    × ((compare_entries (some rtm01) (b'1' ∷ b'9' ∷ []) entries ≡ 0)
        ⊎ (compare_entries (some rtm01) (b'1' ∷ b'9' ∷ []) entries ≡ 1))
compare_entries-IsWanted_example = compare_entries-IsWanted (some rtm01) (b'1' ∷ b'9' ∷ []) entries

-- The retimers of MTL are passed over.
mtl_ignored :
    compare_entries (some rtm01) [] (record retimer { fw_class = mtl_retimer01_guid } ∷ []) ≡ 1
unfolding compare_entries entry_matches same_bytes
mtl_ignored = refl
