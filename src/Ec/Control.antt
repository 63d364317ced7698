-- ===== src/Ec/Control.antt =====
-- chromium_ec/mod.rs: the requests of `CrosEc` that query and control the board.
pub mod Queries
use framework_system.Base.{
  ℕ, ◌+◌, ◌*◌, ◌/◌, ◌%◌, ◌^◌, min, List, [], ◌∷◌, ◌++◌, length, take, drop, replicate, map,
  get_elem?, bit_and, index, ◌-◌, Bool, true, false, not, ◌==◌, ◌||◌, ltb, leb, if◌then◌else◌,
  Option, none, some, Maybe, Result, ok, err, panic, assert, unwrap, ok_or, ◌>>=◌, ◌>>◌,
}
use mathlib.Core.List.{foldl}
use framework_system.EcBinary.Text.{from_utf8, trim_end_zeros, is_continuation}
use framework_system.Ec.Status.{EcError, EcResult, device_error}
use framework_system.Ec.Driver.{Driver, Call, Ec, bind, pure, map_result, flash_notified_command}
use framework_system.Ec.Commands.{
  send, command_code, get_build_info, charge_limit_control, fp_led_level_control,
}
use framework_system.Ec.Deck.{InputDeckStatus, deck_status_from}
use framework_system.Ec.Flash.{notify_code, flash_pd, firmware_done}
use framework_system.Ec.Select.{print_err, ec_memmap_size}
use framework_system.Ec.Requests.{
  get_version_request, flash_notify_request, get_cmd_versions_v0_request,
  get_cmd_versions_v1_request, privacy_switches_request, chassis_open_check_request,
  chassis_intrusion_request, deck_state_request, DeckStateMode, read_only, FlashProtectFlags,
  EcResponseFlashProtect, protect_flag, flash_protect_request, reboot_request, RebootEcCmd,
  reboot_code, reboot_flag, default_flags, reboot_ec_request, cancel, gpio_get_v0_request,
}

-- `assert_win_len`, in a build without the Windows driver.
abbrev pub assert_win_len : ℕ → ℕ → EcResult (Unit {0})
assert_win_len left right = assert (left == right)

pub data EcCurrentImage : Type 0 where
  unknown ro rw : EcCurrentImage

unfoldable pub current_image_from : ℕ → EcCurrentImage
current_image_from n = if n == 1 then ro else if n == 2 then rw else unknown

pub record IntrusionStatus : Type 0 where
  pub currently_open : Bool
  pub coin_cell_ever_removed : Bool
  pub ever_opened : Bool
  pub total_opened : ℕ
  pub vtr_open_count : ℕ

-- A text that is padded with zeros.
unfoldable pub padded_text : List ℕ → Maybe (List ℕ)
padded_text bytes = elim (from_utf8 bytes) [ none ↦ err tt | some text ↦ ok (trim_end_zeros text) ]

module _ (D : Driver) where
  unfoldable pub lock_pd_bus : Bool → Ec D (Unit {0})
  lock_pd_bus lock =
      bind D
        (D.send_command flash_notified_command 0
          (notify_code (if lock then flash_pd else firmware_done) ∷ []))
        λ response. pure D (
          if not (length response == 0)
          then err (device_error "Didn't expect a response!" [])
          else ok tt)

  -- The two magic bytes at 0x20.
  unfoldable pub check_mem_magic : Call D (Unit {0}) (Unit {0})
  check_mem_magic = bind D (D.read_memory 0x20 2) λ ec_id. pure D (
      if not (length ec_id == 2)
      then err tt
      else (index ec_id 0 >>= λ id0. index ec_id 1 >>= λ id1.
          if not (id0 == b'E') || not (id1 == b'C') then err tt else ok tt))

  unfoldable pub dump_mem_region : Call D (Unit {0}) (List ℕ)
  dump_mem_region = D.read_memory 0x00 (ec_memmap_size - 1)

  unfoldable pub version_info : Ec D (List ℕ)
  unfolding command_code padded_text
  version_info = bind D (D.send_command (command_code get_build_info) 0 []) λ bytes.
      pure D (elim (padded_text bytes) [
        | ok text ↦ ok text
        | err _ ↦ err (device_error "Failed to decode version: {:?}" [])
        | panic ↦ panic
      ])

  unfoldable pub flash_version : Call D (Unit {0}) (List ℕ × List ℕ × EcCurrentImage)
  unfolding print_err padded_text current_image_from
  flash_version = bind D (map_result D print_err (send D (flash_notify_request 0))) λ _.
      bind D (map_result D print_err (send D get_version_request)) λ v. pure D (
        padded_text v.version_string_ro >>= λ ro_text.
        padded_text v.version_string_rw >>= λ rw_text.
        ok (ro_text, rw_text, current_image_from v.current_image))

  -- `1 << version` on 32 bits, in a build with or without overflow checks.
  abbrev version_bit : Bool → ℕ → EcResult ℕ
  version_bit debug version =
      if ltb version 32 then ok (2 ^ version) else if debug then panic else ok (2 ^ (version % 32))

  -- The mask of the versions of a command: version 0 of the request takes the low byte only.
  unfoldable pub version_mask : ℕ → Ec D ℕ
  version_mask cmd s =
      fall_back (send D (get_cmd_versions_v1_request cmd) s)
        (send D (get_cmd_versions_v0_request (cmd % 2 ^ 8)))
    where
      fall_back : EcResult ℕ × D.State → Ec D ℕ → EcResult ℕ × D.State
      fall_back (ok mask, s') older = (ok mask, s')
      fall_back (err e, s') older = older s'
      fall_back (panic, s') older = (panic, s')

  unfoldable pub cmd_version_supported : Bool → ℕ → ℕ → Ec D Bool
  unfolding version_mask
  cmd_version_supported debug cmd version =
      bind D (version_mask cmd)
        λ mask. pure D (version_bit debug version >>= λ bit. ok (ltb 0 (bit_and mask bit)))

  -- The microphone, and the camera.
  unfoldable pub get_privacy_info : Ec D (Bool × Bool)
  get_privacy_info =
      bind D (send D privacy_switches_request)
        λ status. pure D (ok (status.microphone == 1, status.camera == 1))

  unfoldable pub get_intrusion_status : Ec D IntrusionStatus
  get_intrusion_status = bind D (send D chassis_open_check_request) λ status.
      bind D (send D (chassis_intrusion_request 0 0)) λ intrusion. pure D (
        ok (record {
          currently_open = status == 1;
          coin_cell_ever_removed = intrusion.coin_batt_ever_remove == 1;
          ever_opened = intrusion.chassis_ever_opened == 1;
          total_opened = intrusion.total_open_count;
          vtr_open_count = intrusion.vtr_open_count;
        }))

  unfoldable pub get_input_deck_status : Ec D InputDeckStatus
  unfolding deck_status_from
  get_input_deck_status =
      bind D (send D (deck_state_request read_only)) λ status. pure D (deck_status_from status)

  unfoldable pub set_input_deck_mode : DeckStateMode → Ec D InputDeckStatus
  unfolding deck_status_from
  set_input_deck_mode mode =
      bind D (send D (deck_state_request mode)) λ status. pure D (deck_status_from status)

  -- The flags are added up.
  unfoldable pub protect_ec_flash : ℕ → List FlashProtectFlags → Ec D EcResponseFlashProtect
  unfolding protect_flag
  protect_ec_flash mask flags =
      send D (flash_protect_request mask (foldl (λ x y. x + protect_flag y) 0 flags))

  unfoldable pub reboot : Ec D (Unit {0})
  reboot = send D reboot_request

  unfoldable pub reboot_ec : RebootEcCmd → Ec D (Unit {0})
  unfolding reboot_code
  reboot_ec command = send D (reboot_ec_request (reboot_code command) (reboot_flag default_flags))

  unfoldable pub jump_rw : Ec D (Unit {0})
  unfolding reboot_code
  jump_rw = send D (reboot_ec_request (reboot_code RebootEcCmd.jump_rw) 0)

  unfoldable pub jump_ro : Ec D (Unit {0})
  unfolding reboot_code
  jump_ro = send D (reboot_ec_request (reboot_code RebootEcCmd.jump_ro) 0)

  unfoldable pub cancel_jump : Ec D (Unit {0})
  unfolding reboot_code
  cancel_jump = send D (reboot_ec_request (reboot_code cancel) 0)

  unfoldable pub disable_jump : Ec D (Unit {0})
  unfolding reboot_code
  disable_jump = send D (reboot_ec_request (reboot_code RebootEcCmd.disable_jump) 0)

  -- `&name[..end]` must not cut a character.
  abbrev is_char_boundary : List ℕ → ℕ → Bool
  is_char_boundary name end = elim (get_elem? name end) [
    | none ↦ true
    | some b ↦ not (is_continuation b)
  ]

  -- The name is cut, or filled up with zeros, to 32 bytes.
  unfoldable pub gpio_name : List ℕ → EcResult (List ℕ)
  gpio_name name =
      let end = min 32 (length name) in
      if is_char_boundary name end then ok (take end name ++ replicate (32 - end) 0) else panic

  unfoldable pub get_gpio : List ℕ → Ec D Bool
  unfolding gpio_name
  get_gpio name =
      bind D (pure D (gpio_name name))
        λ padded. bind D (send D (gpio_get_v0_request padded)) λ val. pure D (ok (val == 1))
