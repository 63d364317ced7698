-- ===== src/Ec/Requests/Generic.antt =====
-- chromium_ec/commands.rs, up to the commands of Framework's own.
use framework_system.Base.{ℕ, ◌^◌, List, [], ◌∷◌, ◌++◌, take, drop}
use framework_system.Bytes.{to_le, field}
use framework_system.Ec.Commands.{
  EcRequest, get_version, get_cmd_versions, flash_protect, pwm_set_keyboard_backlight,
  pwm_get_keyboard_backlight, pwm_set_duty, pwm_get_duty, gpio_get, reboot, reboot_ec,
  console_snapshot, console_read, get_features, usb_pd_power_info,
}

-- A request whose response is empty.
abbrev pub no_response : List ℕ → Unit {0}
no_response response = tt

pub record EcResponseGetVersion : Type 0 where
  pub version_string_ro : List ℕ
  pub version_string_rw : List ℕ
  pub current_image : ℕ

abbrev pub get_version_request : EcRequest EcResponseGetVersion
get_version_request = record {
  command_id = get_version;
  command_version = 0;
  params = [];
  response_size = 100;
  decode = λ r. record {
    version_string_ro = take 32 r;
    version_string_rw = take 32 (drop 32 r);
    current_image = field r 96 4;
  };
}

-- The response is the mask of the versions.
abbrev pub get_cmd_versions_v0_request : ℕ → EcRequest ℕ
get_cmd_versions_v0_request cmd = record {
  command_id = get_cmd_versions;
  command_version = 0;
  params = cmd ∷ [];
  response_size = 4;
  decode = λ r. field r 0 4;
}

abbrev pub get_cmd_versions_v1_request : ℕ → EcRequest ℕ
get_cmd_versions_v1_request cmd = record {
  command_id = get_cmd_versions;
  command_version = 1;
  params = to_le 4 cmd;
  response_size = 4;
  decode = λ r. field r 0 4;
}

pub data FlashProtectFlags : Type 0 where
  protect_ro_at_boot protect_ro_now protect_all_now protect_gpio_asserted : FlashProtectFlags
  error_struck error_inconsistent protect_all_at_boot : FlashProtectFlags

-- `FlashProtectFlags as u32`
unfoldable pub protect_flag : FlashProtectFlags → ℕ
protect_flag protect_ro_at_boot = 2 ^ 0
protect_flag protect_ro_now = 2 ^ 1
protect_flag protect_all_now = 2 ^ 2
protect_flag protect_gpio_asserted = 2 ^ 3
protect_flag error_struck = 2 ^ 4
protect_flag error_inconsistent = 2 ^ 5
protect_flag protect_all_at_boot = 2 ^ 6

pub record EcResponseFlashProtect : Type 0 where
  pub flags : ℕ
  pub valid_flags : ℕ
  pub writeable_flags : ℕ

abbrev pub flash_protect_request : ℕ → ℕ → EcRequest EcResponseFlashProtect
flash_protect_request mask flags = record {
  command_id = flash_protect;
  command_version = 0;
  params = to_le 4 mask ++ to_le 4 flags;
  response_size = 12;
  decode =
      λ r. record { flags = field r 0 4; valid_flags = field r 4 4; writeable_flags = field r 8 4 };
}

abbrev pub pwm_set_keyboard_backlight_request : ℕ → EcRequest (Unit {0})
pwm_set_keyboard_backlight_request percent = record {
  command_id = pwm_set_keyboard_backlight;
  command_version = 0;
  params = percent ∷ [];
  response_size = 0;
  decode = no_response;
}

pub record EcResponsePwmGetKeyboardBacklight : Type 0 where
  pub percent : ℕ
  pub enabled : ℕ

abbrev pub pwm_get_keyboard_backlight_request : EcRequest EcResponsePwmGetKeyboardBacklight
pwm_get_keyboard_backlight_request = record {
  command_id = pwm_get_keyboard_backlight;
  command_version = 0;
  params = [];
  response_size = 2;
  decode = λ r. record { percent = field r 0 1; enabled = field r 1 1 };
}

pub data PwmType : Type 0 where
  generic kb_light display_light : PwmType

-- `PwmType as u8`
abbrev pub pwm_type_code : PwmType → ℕ
pwm_type_code generic = 0
pwm_type_code kb_light = 1
pwm_type_code display_light = 2

abbrev pub pwm_max_duty : ℕ
pwm_max_duty = 0xFFFF

abbrev pub pwm_set_duty_request : ℕ → PwmType → ℕ → EcRequest (Unit {0})
pwm_set_duty_request duty pwm_type index = record {
  command_id = pwm_set_duty;
  command_version = 0;
  params = to_le 2 duty ++ (pwm_type_code pwm_type ∷ index ∷ []);
  response_size = 0;
  decode = no_response;
}

-- The response is the duty.
abbrev pub pwm_get_duty_request : PwmType → ℕ → EcRequest ℕ
pwm_get_duty_request pwm_type index = record {
  command_id = pwm_get_duty;
  command_version = 0;
  params = pwm_type_code pwm_type ∷ index ∷ [];
  response_size = 2;
  decode = λ r. field r 0 2;
}

-- The name is an array of 32 bytes, the response the value.
abbrev pub gpio_get_v0_request : List ℕ → EcRequest ℕ
gpio_get_v0_request name = record {
  command_id = gpio_get;
  command_version = 0;
  params = name;
  response_size = 1;
  decode = λ r. field r 0 1;
}

abbrev pub reboot_request : EcRequest (Unit {0})
reboot_request = record {
  command_id = reboot;
  command_version = 0;
  params = [];
  response_size = 0;
  decode = no_response;
}

abbrev pub console_snapshot_request : EcRequest (Unit {0})
console_snapshot_request = record {
  command_id = console_snapshot;
  command_version = 0;
  params = [];
  response_size = 0;
  decode = no_response;
}

pub data ConsoleReadSubCommand : Type 0 where
  console_read_next console_read_recent : ConsoleReadSubCommand

-- `ConsoleReadSubCommand as u8`
abbrev pub sub_command_code : ConsoleReadSubCommand → ℕ
sub_command_code console_read_next = 0
sub_command_code console_read_recent = 1

abbrev pub console_read_request : ConsoleReadSubCommand → EcRequest (Unit {0})
console_read_request subcmd = record {
  command_id = console_read;
  command_version = 1;
  params = sub_command_code subcmd ∷ [];
  response_size = 0;
  decode = no_response;
}

-- The response is two words of flags.
abbrev pub get_features_request : EcRequest (ℕ × ℕ)
get_features_request = record {
  command_id = get_features;
  command_version = 0;
  params = [];
  response_size = 8;
  decode = λ r. (field r 0 4, field r 4 4);
}

pub data RebootEcCmd : Type 0 where
  cancel jump_ro jump_rw deprecated_jump_to_rw_b cold_reboot disable_jump : RebootEcCmd
  hibernate deprecated_clear_ap_off cold_ap_off no_op : RebootEcCmd

-- `RebootEcCmd as u8`
unfoldable pub reboot_code : RebootEcCmd → ℕ
reboot_code cancel = 0
reboot_code jump_ro = 1
reboot_code jump_rw = 2
reboot_code deprecated_jump_to_rw_b = 3
reboot_code cold_reboot = 4
reboot_code disable_jump = 5
reboot_code hibernate = 6
reboot_code deprecated_clear_ap_off = 7
reboot_code cold_ap_off = 8
reboot_code no_op = 9

pub data RebootEcFlags : Type 0 where
  default_flags deprecated_recovery_request on_ap_shutdown switch_rw_slot : RebootEcFlags
  clear_ap_idle : RebootEcFlags

-- `RebootEcFlags as u8`
abbrev pub reboot_flag : RebootEcFlags → ℕ
reboot_flag default_flags = 0x00
reboot_flag deprecated_recovery_request = 0x01
reboot_flag on_ap_shutdown = 0x02
reboot_flag switch_rw_slot = 0x04
reboot_flag clear_ap_idle = 0x08

abbrev pub reboot_ec_request : ℕ → ℕ → EcRequest (Unit {0})
reboot_ec_request cmd flags = record {
  command_id = reboot_ec;
  command_version = 0;
  params = cmd ∷ flags ∷ [];
  response_size = 0;
  decode = no_response;
}

-- `_UsbChargeMeasures`
pub record RawChargeMeasures : Type 0 where
  pub voltage_max : ℕ
  pub voltage_now : ℕ
  pub current_max : ℕ
  pub current_lim : ℕ

pub record EcResponseUsbPdPowerInfo : Type 0 where
  pub role : ℕ
  pub charging_type : ℕ
  pub dualrole : ℕ
  pub meas : RawChargeMeasures
  pub max_power : ℕ

abbrev pub usb_pd_power_info_request : ℕ → EcRequest EcResponseUsbPdPowerInfo
usb_pd_power_info_request port = record {
  command_id = usb_pd_power_info;
  command_version = 0;
  params = port ∷ [];
  response_size = 16;
  decode = λ r. record {
    role = field r 0 1;
    charging_type = field r 1 1;
    dualrole = field r 2 1;
    meas = record {
      voltage_max = field r 4 2;
      voltage_now = field r 6 2;
      current_max = field r 8 2;
      current_lim = field r 10 2;
    };
    max_power = field r 12 4;
  };
}
