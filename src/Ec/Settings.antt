-- ===== src/Ec/Settings.antt =====
-- chromium_ec/mod.rs: the settings that can be written and read back: charge limit, fingerprint LED
-- and keyboard backlight.
pub mod Limits
pub mod Backlight
use framework_system.Base.{
  ℕ, ◌*◌, ◌/◌, ◌%◌, ◌^◌, List, [], ◌∷◌, length, Bool, true, false, leb, ltb, ok, err, panic, Result,
  if◌then◌else◌,
}
use framework_system.Ec.Status.{EcResult}
use framework_system.Ec.Driver.{Driver, Ec, bind, pure, map_result}
use framework_system.Ec.Commands.{send, command_code, charge_limit_control, fp_led_level_control}
use framework_system.Ec.Control.{assert_win_len}
use framework_system.Ec.Port.{debug_assert}
use framework_system.Ec.Requests.{
  charge_mode_code, set, get, charge_limit_control_request, FpLedBrightnessLevel, brightness_code,
  fp_led_level_control_request, pwm_max_duty, pwm_set_duty_request, pwm_get_duty_request, kb_light,
}

-- `percent as u16 * (PWM_MAX_DUTY / 100)`, in a build with or without overflow checks.
unfoldable pub backlight_duty : Bool → ℕ → EcResult ℕ
backlight_duty debug percent =
    let duty = percent * (pwm_max_duty / 100) in
    if ltb duty (2 ^ 16) then ok duty else if debug then panic else ok (duty % 2 ^ 16)

module _ (D : Driver) where
  -- The minimum, and the maximum.
  unfoldable pub set_charge_limit : ℕ → ℕ → Ec D (Unit {0})
  unfolding command_code
  set_charge_limit min max =
      bind D
        (D.send_command (command_code charge_limit_control) 0
          (charge_mode_code set ∷ max ∷ min ∷ []))
        λ response. pure D (assert_win_len (length response) 0)

  unfoldable pub get_charge_limit : Ec D (ℕ × ℕ)
  get_charge_limit =
      bind D (send D (charge_limit_control_request get 0xFF 0xFF))
        λ limits. pure D (ok (limits.min_percentage, limits.max_percentage))

  unfoldable pub set_fp_led_level : FpLedBrightnessLevel → Ec D (Unit {0})
  unfolding command_code
  set_fp_led_level level =
      bind D
        (D.send_command (command_code fp_led_level_control) 0 (brightness_code level ∷ 0x00 ∷ []))
        λ response. pure D (assert_win_len (length response) 0)

  unfoldable pub get_fp_led_level : Ec D ℕ
  get_fp_led_level = send D (fp_led_level_control_request 0xFF 0xFF)

  -- An error is lost in a build without debug assertions.
  unfoldable pub set_keyboard_backlight : Bool → ℕ → Ec D (Unit {0})
  unfolding backlight_duty
  set_keyboard_backlight debug percent = bind D (pure D (debug_assert debug (leb percent 100))) λ _.
      bind D (pure D (backlight_duty debug percent))
        λ duty. map_result D lose (send D (pwm_set_duty_request duty kb_light 0))
    where
      lose : EcResult (Unit {0}) → EcResult (Unit {0})
      lose (ok done) = ok tt
      lose (err e) = debug_assert debug false
      lose panic = panic

  unfoldable pub get_keyboard_backlight : Ec D ℕ
  get_keyboard_backlight =
      bind D (send D (pwm_get_duty_request kb_light 0))
        λ duty. pure D (ok ((duty / (pwm_max_duty / 100)) % 2 ^ 8))
