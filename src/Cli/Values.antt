-- ===== src/Cli/Values.antt =====
-- commandline/uefi.rs: the values that an option takes from the arguments behind it.
use Prim.Native.String.{String}
use text.Mathlib.Text.{◌==◌}
use framework_system.Base.{ℕ, List, [], ◌∷◌, Option, none, some, if◌then◌else◌}
use framework_system.Cli.Options.{
  ConsoleArg, RebootEcArg, FpBrightnessArg, InputDeckModeArg, HardwareDeviceType, recent, follow,
  reboot, jump_ro, jump_rw, cancel_jump, disable_jump, high, medium, low, auto,
}
use framework_system.Cli.Numbers.{parse_u8}

unfoldable pub input_deck_mode_value : String → Option InputDeckModeArg
input_deck_mode_value v =
    if v == "auto"
    then some auto
    else if v == "off"
    then some InputDeckModeArg.off
    else if v == "on"
    then some InputDeckModeArg.on
    else none

unfoldable pub fp_brightness_value : String → Option (Option FpBrightnessArg)
fp_brightness_value v =
    if v == "high"
    then some (some high)
    else if v == "medium"
    then some (some medium)
    else if v == "low"
    then some (some low)
    else none

unfoldable pub console_value : String → Option ConsoleArg
console_value v = if v == "recent" then some recent else if v == "follow" then some follow else none

unfoldable pub reboot_ec_value : String → Option RebootEcArg
reboot_ec_value v =
    if v == "reboot"
    then some reboot
    else if v == "jump-ro"
    then some jump_ro
    else if v == "jump-rw"
    then some jump_rw
    else if v == "cancel-jump"
    then some cancel_jump
    else if v == "disable-jump"
    then some disable_jump
    else none

-- A percentage: `Some(None)` without a value, and `None` if the value is no `u8`.
unfoldable pub percent_value : Option String → Option (Option ℕ)
percent_value none = some none
percent_value (some v) = elim (parse_u8 v) [ some percent ↦ some (some percent) | none ↦ none ]

-- The same for the brightness.
abbrev pub brightness : Option String → Option (Option FpBrightnessArg)
brightness none = some none
brightness (some v) = fp_brightness_value v

abbrev pub bind : {A : Type 0} → Option String → (String → Option A) → Option A
bind none f = none
bind (some v) f = f v

-- Two numbers, both of which must parse.
unfoldable pub pair_value : (String → Option ℕ) → List String → Option (ℕ × ℕ)
pair_value parse [] = none
pair_value parse (a ∷ []) = none
pair_value parse (a ∷ b ∷ _) =
    bind_number (parse a) λ left. bind_number (parse b) λ right. some (left, right)
  where
    bind_number : Option ℕ → (ℕ → Option (ℕ × ℕ)) → Option (ℕ × ℕ)
    bind_number none f = none
    bind_number (some n) f = f n

unfoldable pub device_value : String → Option HardwareDeviceType
device_value v =
    if v == "bios"
    then some HardwareDeviceType.bios
    else if v == "ec"
    then some HardwareDeviceType.ec
    else if v == "pd0"
    then some HardwareDeviceType.pd0
    else if v == "pd1"
    then some HardwareDeviceType.pd1
    else if v == "rtm01"
    then some HardwareDeviceType.rtm01
    else if v == "rtm23"
    then some HardwareDeviceType.rtm23
    else if v == "ac-left"
    then some HardwareDeviceType.ac_left
    else if v == "ac-right"
    then some HardwareDeviceType.ac_right
    else none
