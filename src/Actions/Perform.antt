-- ===== src/Actions/Perform.antt =====
-- commandline/mod.rs: the bodies of the branches of `run_with_args`, one for each action.
use Prim.Native.String.{String}
use framework_system.Base.{ℕ, List, leb, Option, none, some, Maybe, ok, err, panic, assert}
use framework_system.Cli.Numbers.{codes}
use framework_system.Cli.Options.{
  RebootEcArg, recent, follow, reboot, jump_ro, jump_rw, cancel_jump, disable_jump,
}
use framework_system.Ec.Status.{EcResult}
use framework_system.Ec.Driver.{Driver, Call, Ec}
use framework_system.Ec.Requests.{cold_reboot}
use framework_system.Ec.Features.{get_features}
use framework_system.Ec.Settings.{set_keyboard_backlight, get_keyboard_backlight}
use framework_system.Ec.Console.{console_read, console_read_one}
use framework_system.Power.{get_als_reading, get_and_print_power_info}
use framework_system.Power.Thermal.{print_thermal}
use framework_system.Power.Ports.{get_pd_info}
use framework_system.Actions.Act.{
  Machine, platform_of_machine, is_framework_machine, Act, return, and_then, attempt, ask,
  write_file, ignored, unwrapped,
}
use framework_system.Actions.Show.{utf8}
use framework_system.Actions.Images.{
  analyze_ccgx_pd_fw, analyze_ec_fw, capsule_dump, analyze_bios_capsule,
}
use framework_system.Actions.Settings.{deck_mode_from, handle_charge_limit, handle_fp_brightness}
use framework_system.Actions.SelfTest.{selftest, flash_ec}
use framework_system.Actions.Versions.{print_versions, print_pd_details}
use framework_system.Actions.Choose.{
  Action, help, versions, version, features, esrt, intrusion, inputmodules, test, power, thermal,
  sensors, pdports, info, pd_info, dp_hdmi_info, audio_card_info, privacy, idle, input_deck_mode,
  charge_limit, kblight, fp_brightness, dp_hdmi_update, pd_bin, ec_bin, ho2_capsule, hash, console,
  capsule, flash,
}
use framework_system.Actions.Compare
use framework_system.Actions.SelfTest
use framework_system.Ec.Control
use framework_system.Ec.Control.{
  get_intrusion_status, get_input_deck_status, set_input_deck_mode, get_privacy_info,
}

module _ (D : Driver) (x : Machine) where
  -- The branch runs to its end, and then `run_with_args` returns 0.
  abbrev pub done : {A : Type 0} → Act D A → Act D ℕ
  done m = and_then D m λ _. return D (ok 0)

  -- What is only shown: an error leaves the branch as well.
  abbrev pub shown : {E A : Type 0} → Call D E A → Act D ℕ
  shown m = done (ask D ignored m)

  abbrev pub must_show : {E A : Type 0} → Call D E A → Act D ℕ
  must_show m = done (ask D unwrapped m)

  -- The `if let Some(data)` of the options that read a file.
  abbrev pub with_file : {A : Type 0} → String → (List ℕ → Maybe A) → Act D ℕ
  with_file path use_bytes = elim (x.read_file path) [
    | none ↦ return D (ok 0)
    | some bytes ↦ done (return D (use_bytes bytes))
  ]

  -- The endless loop of `console_read`, on fuel.
  abbrev pub follow_console : Act D (Unit {0})
  follow_console (s, disk) = ended (console_read D x.fuel s)
    where
      ended :
          EcResult (Option (List ℕ)) × D.State
          → Option (Maybe (Unit {0}) × (D.State × List (String × List ℕ)))
      ended (ok none, s') = none
      ended (ok (some text), s') = some (ok tt, (s', disk))
      ended (err e, s') = some (ok tt, (s', disk))
      ended (panic, s') = some (panic, (s', disk))

  abbrev answer_reboot : RebootEcArg → Ec D (Unit {0})
  answer_reboot reboot = Control.reboot_ec D cold_reboot
  answer_reboot jump_ro = Control.jump_ro D
  answer_reboot jump_rw = Control.jump_rw D
  answer_reboot cancel_jump = Control.cancel_jump D
  answer_reboot disable_jump = Control.disable_jump D

  abbrev write_dump : Option (String × List ℕ) → Act D (Unit {0})
  write_dump none = return D (ok tt)
  write_dump (some (path, bytes)) = write_file D x path bytes

  -- The code with which the tool ends.
  unfoldable pub perform : Action → Act D ℕ
  unfolding selftest capsule_dump write_file
  perform help = return D (ok 2)
  perform versions = done (print_versions D x)
  perform version = return D (ok 0)
  perform features = must_show (get_features D)
  perform esrt = done (return D (ignored x.esrt))
  perform (Action.compare_version device target) =
      Compare.compare_version D x device (utf8 (codes target))
  perform intrusion = shown (get_intrusion_status D)
  perform inputmodules = shown (get_input_deck_status D)
  perform (input_deck_mode mode) = must_show (set_input_deck_mode D (deck_mode_from mode))
  perform (charge_limit limit) = shown (handle_charge_limit D limit)
  perform (Action.get_gpio name) = shown (Control.get_gpio D (utf8 (codes name)))
  perform (fp_brightness level) = shown (handle_fp_brightness D level)
  perform (kblight (some percent)) =
      and_then D (return D (assert (leb percent 100)))
        λ _. shown (set_keyboard_backlight D x.debug percent)
  perform (kblight none) = shown (get_keyboard_backlight D)
  perform (console follow) = done follow_console
  perform (console recent) = shown (console_read_one D)
  perform (Action.reboot_ec command) = shown (answer_reboot command)
  perform test =
      and_then D (attempt D (selftest D x))
        λ found. return D (ok (elim found [ some _ ↦ 0 | none ↦ 1 ]))
  perform power = ask D (λ code. code) (get_and_print_power_info D x.debug)
  perform thermal = must_show (print_thermal D x.debug (platform_of_machine x))
  perform sensors = must_show (get_als_reading D)
  perform pdports = must_show (get_pd_info D x.debug 4)
  perform info = return D (ok 0)
  perform pd_info = done (print_pd_details D x (is_framework_machine x))
  perform dp_hdmi_info = done (return D x.list_cards)
  perform (dp_hdmi_update path) = with_file path x.update_cards
  perform audio_card_info = done (return D x.list_audio_cards)
  perform privacy = shown (get_privacy_info D)
  perform (pd_bin path) = with_file path analyze_ccgx_pd_fw
  perform (ec_bin path) = with_file path (analyze_ec_fw x.captures)
  perform (capsule path dump) = elim (x.read_file path) [
    | none ↦ return D (ok 0)
    | some image ↦ done (and_then D (return D (capsule_dump dump image)) write_dump)
  ]
  perform (ho2_capsule path) = with_file path (analyze_bios_capsule x.captures)
  perform (Action.dump_ec_flash path) = done (SelfTest.dump_ec_flash D x path)
  perform (flash part path) = done (flash_ec D x path part)
  perform (hash path) = with_file path (λ bytes. ok tt)
  perform idle = return D (ok 0)
