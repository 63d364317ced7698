-- ===== src/Ec/Features.antt =====
-- chromium_ec/mod.rs: `get_features`, with the features of chromium_ec/commands.rs.
pub mod Listing
use framework_system.Base.{
  ℕ, zero, suc, ◌+◌, ◌/◌, ◌%◌, List, [], ◌∷◌, Bool, if◌then◌else◌, ◌==◌, Option, none, some,
  get_elem?, ok,
}
use framework_system.Ec.Driver.{Driver, Ec, bind, pure}
use framework_system.Ec.Commands.{send}
use framework_system.Ec.Requests.{get_features_request, has_flag}

pub data EcFeatureCode : Type 0 where
  limited flash pwm_fan pwm_keyboard_backlight lightbar : EcFeatureCode
  led motion_sense keyboard persistent_storage port80 : EcFeatureCode
  thermal backlight_switch wifi_switch host_events gpio : EcFeatureCode
  i2c charger battery smart_battery hang_detect : EcFeatureCode
  pmu sub_mcu usb_pd usb_mux motion_sense_fifo : EcFeatureCode
  secure_vstore usbc_ss_mux_virtual rtc fingerprint touchpad : EcFeatureCode
  rw_sig device_event unified_wake_masks host_event64 exec_in_ram : EcFeatureCode
  cec motion_sense_tight_times_stamps refined_tablet_mode_hysteresis efs2 scp : EcFeatureCode
  ish typec_cmd typec_require_ap_mode_entry type_cmux_require_ap_ack s4_residency : EcFeatureCode
  type_cap_mux_set type_cap_vdm_send system_safe_mode assert_reboots tokenized_logging :
      EcFeatureCode
  amd_stb_dump memory_dump dp21 scp_c1 ucsi_ppm : EcFeatureCode

-- `EcFeatureCode as usize`
unfoldable pub feature_code : EcFeatureCode → ℕ
feature_code limited = 0
feature_code flash = 1
feature_code pwm_fan = 2
feature_code pwm_keyboard_backlight = 3
feature_code lightbar = 4
feature_code led = 5
feature_code motion_sense = 6
feature_code keyboard = 7
feature_code persistent_storage = 8
feature_code port80 = 9
feature_code thermal = 10
feature_code backlight_switch = 11
feature_code wifi_switch = 12
feature_code host_events = 13
feature_code gpio = 14
feature_code i2c = 15
feature_code charger = 16
feature_code battery = 17
feature_code smart_battery = 18
feature_code hang_detect = 19
feature_code pmu = 20
feature_code sub_mcu = 21
feature_code usb_pd = 22
feature_code usb_mux = 23
feature_code motion_sense_fifo = 24
feature_code secure_vstore = 25
feature_code usbc_ss_mux_virtual = 26
feature_code rtc = 27
feature_code fingerprint = 28
feature_code touchpad = 29
feature_code rw_sig = 30
feature_code device_event = 31
feature_code unified_wake_masks = 32
feature_code host_event64 = 33
feature_code exec_in_ram = 34
feature_code cec = 35
feature_code motion_sense_tight_times_stamps = 36
feature_code refined_tablet_mode_hysteresis = 37
feature_code efs2 = 38
feature_code scp = 39
feature_code ish = 40
feature_code typec_cmd = 41
feature_code typec_require_ap_mode_entry = 42
feature_code type_cmux_require_ap_ack = 43
feature_code s4_residency = 44
feature_code type_cap_mux_set = 45
feature_code type_cap_vdm_send = 46
feature_code system_safe_mode = 47
feature_code assert_reboots = 48
feature_code tokenized_logging = 49
feature_code amd_stb_dump = 50
feature_code memory_dump = 51
feature_code dp21 = 52
feature_code scp_c1 = 53
feature_code ucsi_ppm = 54

-- In the order of their numbers.
abbrev pub all_features : List EcFeatureCode
all_features =
    limited ∷ flash ∷ pwm_fan ∷ pwm_keyboard_backlight ∷ lightbar ∷ led ∷ motion_sense ∷ keyboard
    ∷ persistent_storage ∷ port80 ∷ thermal ∷ backlight_switch ∷ wifi_switch ∷ host_events ∷ gpio
    ∷ i2c ∷ charger ∷ battery ∷ smart_battery ∷ hang_detect ∷ pmu ∷ sub_mcu ∷ usb_pd ∷ usb_mux
    ∷ motion_sense_fifo ∷ secure_vstore ∷ usbc_ss_mux_virtual ∷ rtc ∷ fingerprint ∷ touchpad
    ∷ rw_sig ∷ device_event ∷ unified_wake_masks ∷ host_event64 ∷ exec_in_ram ∷ cec
    ∷ motion_sense_tight_times_stamps ∷ refined_tablet_mode_hysteresis ∷ efs2 ∷ scp ∷ ish
    ∷ typec_cmd ∷ typec_require_ap_mode_entry ∷ type_cmux_require_ap_ack ∷ s4_residency
    ∷ type_cap_mux_set ∷ type_cap_vdm_send ∷ system_safe_mode ∷ assert_reboots ∷ tokenized_logging
    ∷ amd_stb_dump ∷ memory_dump ∷ dp21 ∷ scp_c1 ∷ ucsi_ppm ∷ []

-- `EcFeatureCode::from_usize`
unfoldable pub feature_from : ℕ → Option EcFeatureCode
feature_from i = get_elem? all_features i

-- The bit of a feature in the two words of the response.
unfoldable pub feature_bit : ℕ × ℕ → ℕ → Bool
unfolding has_flag
feature_bit flags i = has_flag (if i / 32 == 0 then flags.0 else flags.1) (i % 32)

-- The loop from `i` on, with the rounds that are left: the features that are printed.
unfoldable pub feature_lines : ℕ → ℕ → ℕ × ℕ → List (EcFeatureCode × Bool)
unfolding feature_from feature_bit
feature_lines zero i flags = []
feature_lines (suc left) i flags =
    let rest = feature_lines left (i + 1) flags in
    elim (feature_from i) [ none ↦ rest | some feature ↦ (feature, feature_bit flags i) ∷ rest ]

module _ (D : Driver) where
  -- The result stands for what is printed.
  unfoldable pub get_features : Ec D (List (EcFeatureCode × Bool))
  get_features =
      bind D (send D get_features_request) λ flags. pure D (ok (feature_lines 64 0 flags))
