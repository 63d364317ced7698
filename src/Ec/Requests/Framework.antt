-- ===== src/Ec/Requests/Framework.antt =====
-- chromium_ec/commands.rs: the commands of Framework's own.
use framework_system.Base.{
  ℕ, ◌^◌, bit_and, List, [], ◌∷◌, take, drop, Bool, not, ◌==◌, ◌&&◌, if◌then◌else◌, Result, ok, err,
}
use framework_system.Bytes.{field}
use framework_system.Ec.Commands.{
  EcRequest, flash_notified, chassis_open_check, chassis_intrusion, read_pd_version,
  privacy_switches_check_mode, check_deck_state, uefi_app_mode, uefi_app_btn_status,
  expansion_bay_status, get_hw_diag, charge_limit_control, fp_led_level_control,
}
use framework_system.Ec.Deck.{EcResponseDeckState}
use framework_system.Ec.Requests.Generic.{no_response}

abbrev pub flash_notify_request : ℕ → EcRequest (Unit {0})
flash_notify_request flags = record {
  command_id = flash_notified;
  command_version = 0;
  params = flags ∷ [];
  response_size = 0;
  decode = no_response;
}

-- The response is the status.
abbrev pub chassis_open_check_request : EcRequest ℕ
chassis_open_check_request = record {
  command_id = chassis_open_check;
  command_version = 0;
  params = [];
  response_size = 1;
  decode = λ r. field r 0 1;
}

pub record EcResponseChassisIntrusionControl : Type 0 where
  pub chassis_ever_opened : ℕ
  pub coin_batt_ever_remove : ℕ
  pub total_open_count : ℕ
  pub vtr_open_count : ℕ

abbrev pub chassis_intrusion_request : ℕ → ℕ → EcRequest EcResponseChassisIntrusionControl
chassis_intrusion_request clear_magic clear_chassis_status = record {
  command_id = chassis_intrusion;
  command_version = 0;
  params = clear_magic ∷ clear_chassis_status ∷ [];
  response_size = 4;
  decode = λ r. record {
    chassis_ever_opened = field r 0 1;
    coin_batt_ever_remove = field r 1 1;
    total_open_count = field r 2 1;
    vtr_open_count = field r 3 1;
  };
}

-- `_EcResponseReadPdVersion`
pub record EcResponseReadPdVersion : Type 0 where
  pub controller01 : List ℕ
  pub controller23 : List ℕ

abbrev pub read_pd_version_request : EcRequest EcResponseReadPdVersion
read_pd_version_request = record {
  command_id = read_pd_version;
  command_version = 0;
  params = [];
  response_size = 16;
  decode = λ r. record { controller01 = take 8 r; controller23 = take 8 (drop 8 r) };
}

pub record EcResponsePrivacySwitches : Type 0 where
  pub microphone : ℕ
  pub camera : ℕ

abbrev pub privacy_switches_request : EcRequest EcResponsePrivacySwitches
privacy_switches_request = record {
  command_id = privacy_switches_check_mode;
  command_version = 0;
  params = [];
  response_size = 2;
  decode = λ r. record { microphone = field r 0 1; camera = field r 1 1 };
}

pub data DeckStateMode : Type 0 where
  read_only required force_on force_off : DeckStateMode

-- `DeckStateMode` as the byte that is sent.
abbrev pub deck_mode_code : DeckStateMode → ℕ
deck_mode_code read_only = 0x00
deck_mode_code required = 0x01
deck_mode_code force_on = 0x02
deck_mode_code force_off = 0x04

abbrev pub deck_state_request : DeckStateMode → EcRequest EcResponseDeckState
deck_state_request mode = record {
  command_id = check_deck_state;
  command_version = 0;
  params = deck_mode_code mode ∷ [];
  response_size = 9;
  decode = λ r. record { board_id = take 8 r; deck_state = field r 8 1 };
}

abbrev pub uefi_app_mode_request : ℕ → EcRequest (Unit {0})
uefi_app_mode_request enable = record {
  command_id = uefi_app_mode;
  command_version = 0;
  params = enable ∷ [];
  response_size = 0;
  decode = no_response;
}

-- The response is the status.
abbrev pub uefi_app_btn_status_request : EcRequest ℕ
uefi_app_btn_status_request = record {
  command_id = uefi_app_btn_status;
  command_version = 0;
  params = [];
  response_size = 1;
  decode = λ r. field r 0 1;
}

-- `flags & (1 << n) != 0`
unfoldable pub has_flag : ℕ → ℕ → Bool
has_flag flags n = not (bit_and flags (2 ^ n) == 0)

pub data ExpansionBayBoard : Type 0 where
  dual_interposer single_interposer uma_fans : ExpansionBayBoard

pub data ExpansionBayIssue : Type 0 where
  no_module : ExpansionBayIssue
  bad_connection : ℕ → ℕ → ExpansionBayIssue

pub record EcResponseExpansionBayStatus : Type 0 where
  pub state : ℕ
  pub board_id_0 : ℕ
  pub board_id_1 : ℕ

unfoldable pub module_enabled : EcResponseExpansionBayStatus → Bool
unfolding has_flag
module_enabled bay = has_flag bay.state 0

unfoldable pub module_fault : EcResponseExpansionBayStatus → Bool
unfolding has_flag
module_fault bay = has_flag bay.state 1

unfoldable pub hatch_switch_closed : EcResponseExpansionBayStatus → Bool
unfolding has_flag
hatch_switch_closed bay = has_flag bay.state 2

unfoldable pub expansion_bay_board :
    EcResponseExpansionBayStatus → Result ExpansionBayIssue ExpansionBayBoard
expansion_bay_board bay =
    if bay.board_id_0 == 12 && bay.board_id_1 == 12
    then ok dual_interposer
    else if bay.board_id_0 == 13 && bay.board_id_1 == 15
    then ok uma_fans
    else if bay.board_id_0 == 11 && bay.board_id_1 == 15
    then ok single_interposer
    else if bay.board_id_0 == 15 && bay.board_id_1 == 15
    then err no_module
    else err (bad_connection bay.board_id_0 bay.board_id_1)

abbrev pub expansion_bay_status_request : EcRequest EcResponseExpansionBayStatus
expansion_bay_status_request = record {
  command_id = expansion_bay_status;
  command_version = 0;
  params = [];
  response_size = 3;
  decode = λ r. record { state = field r 0 1; board_id_0 = field r 1 1; board_id_1 = field r 2 1 };
}

pub record EcResponseGetHwDiag : Type 0 where
  pub hw_diag : ℕ
  pub bios_complete : ℕ

-- The left fan, and the right fan.
unfoldable pub fan_fault : EcResponseGetHwDiag → Bool × Bool
unfolding has_flag
fan_fault diag = (has_flag diag.hw_diag 7, has_flag diag.hw_diag 8)

abbrev pub get_hw_diag_request : EcRequest EcResponseGetHwDiag
get_hw_diag_request = record {
  command_id = get_hw_diag;
  command_version = 0;
  params = [];
  response_size = 5;
  decode = λ r. record { hw_diag = field r 0 4; bios_complete = field r 4 1 };
}

pub data ChargeLimitControlModes : Type 0 where
  disable set get override : ChargeLimitControlModes

-- `ChargeLimitControlModes as u8`
abbrev pub charge_mode_code : ChargeLimitControlModes → ℕ
charge_mode_code disable = 0x01
charge_mode_code set = 0x02
charge_mode_code get = 0x08
charge_mode_code override = 0x80

pub record EcResponseChargeLimitControl : Type 0 where
  pub max_percentage : ℕ
  pub min_percentage : ℕ

abbrev pub charge_limit_control_request :
    ChargeLimitControlModes → ℕ → ℕ → EcRequest EcResponseChargeLimitControl
charge_limit_control_request modes max_percentage min_percentage = record {
  command_id = charge_limit_control;
  command_version = 0;
  params = charge_mode_code modes ∷ max_percentage ∷ min_percentage ∷ [];
  response_size = 2;
  decode = λ r. record { max_percentage = field r 0 1; min_percentage = field r 1 1 };
}

pub data FpLedBrightnessLevel : Type 0 where
  high medium low : FpLedBrightnessLevel

-- `FpLedBrightnessLevel as u8`
abbrev pub brightness_code : FpLedBrightnessLevel → ℕ
brightness_code high = 0
brightness_code medium = 1
brightness_code low = 2

-- The response is the level.
abbrev pub fp_led_level_control_request : ℕ → ℕ → EcRequest ℕ
fp_led_level_control_request set_level get_level = record {
  command_id = fp_led_level_control;
  command_version = 0;
  params = set_level ∷ get_level ∷ [];
  response_size = 1;
  decode = λ r. field r 0 1;
}
