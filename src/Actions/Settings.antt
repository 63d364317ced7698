-- ===== src/Actions/Settings.antt =====
-- commandline/mod.rs: the options that read and change a setting of the EC.
pub mod ChargeLimit
use framework_system.Base.{ℕ, List, [], ltb, Option, none, some, ok, err, if◌then◌else◌}
use framework_system.Cli.Options.{FpBrightnessArg, InputDeckModeArg, high, medium, low, auto}
use framework_system.Ec.Status.{device_error, EcError}
use framework_system.Ec.Driver.{Driver, Ec, bind, pure}
use framework_system.Ec.Requests.{
  FpLedBrightnessLevel, DeckStateMode, required, force_off, force_on,
}
use framework_system.Ec.Settings.{
  set_charge_limit, get_charge_limit, set_fp_led_level, get_fp_led_level,
}

-- `FpLedBrightnessLevel::from(FpBrightnessArg)`
unfoldable pub brightness_from : FpBrightnessArg → FpLedBrightnessLevel
brightness_from high = FpLedBrightnessLevel.high
brightness_from medium = FpLedBrightnessLevel.medium
brightness_from low = FpLedBrightnessLevel.low

-- `DeckStateMode::from(InputDeckModeArg)`
unfoldable pub deck_mode_from : InputDeckModeArg → DeckStateMode
deck_mode_from auto = required
deck_mode_from InputDeckModeArg.off = force_off
deck_mode_from InputDeckModeArg.on = force_on

abbrev pub too_low : EcError
too_low = device_error "Not recommended to set charge limit below 25%" []

abbrev pub too_high : EcError
too_high = device_error "Charge limit cannot be set above 100%" []

module _ (D : Driver) where
  -- The part in front of the last read. The error of the first read ends the call, also where no
  -- limit is given.
  unfoldable pub change_limit : ℕ → Option ℕ → Ec D (Unit {0})
  change_limit cur_min none = pure D (ok tt)
  change_limit cur_min (some limit) =
      if ltb limit 25
      then pure D (err too_low)
      else if ltb 100 limit
      then pure D (err too_high)
      else set_charge_limit D cur_min limit

  -- The result is what is printed: the minimum, and the maximum.
  unfoldable pub handle_charge_limit : Option ℕ → Ec D (ℕ × ℕ)
  unfolding change_limit
  handle_charge_limit maybe_limit =
      bind D (get_charge_limit D)
        λ cur. bind D (change_limit cur.0 maybe_limit) λ _. get_charge_limit D

  abbrev change_brightness : Option FpBrightnessArg → Ec D (Unit {0})
  change_brightness none = pure D (ok tt)
  change_brightness (some brightness) = set_fp_led_level D (brightness_from brightness)

  -- The level that is printed.
  unfoldable pub handle_fp_brightness : Option FpBrightnessArg → Ec D ℕ
  unfolding brightness_from
  handle_fp_brightness maybe_brightness =
      bind D (change_brightness maybe_brightness) λ _. get_fp_led_level D
