-- ===== src/Actions/Run/Codes.antt =====
-- commandline/mod.rs: the codes with which `run_with_args` ends.
use Prim.Native.String.{String}
use framework_system.Base.{
  ℕ, ◌≤◌, List, Bool, true, ◌≡◌, ◌≢◌, refl, Option, none, some, Maybe, ok, err, panic, arith, ◌⊎◌,
  inl, inr, subst,
}
use framework_system.Ec.Driver.{Driver}
use framework_system.Ec.Select.{Backend}
use framework_system.Actions.Run.{chosen_driver, run_with_args}
use framework_system.Actions.Codes.{
  IsSmall, return-IsSmall, and_then-IsSmall, done-IsSmall, elim-IsSmall, compare_version-IsSmall,
}
use framework_system.Actions.Act.{Machine, Disk, World, return, ask}
use framework_system.Actions.Act.Inversion.{ask-ok}
use framework_system.Actions.Perform.{done, with_file, perform}
use framework_system.Cli.Options.{Cli, CrosEcDriverType, recent, follow}
use framework_system.Power.{PowerInfo, power_info, exit_code, get_and_print_power_info}
use framework_system.Actions.Images.{analyze_ccgx_pd_fw, analyze_ec_fw, analyze_bios_capsule}
use framework_system.Actions.Choose.{
  Action, choose_file, choose_report, choose_setting, choose, help, versions, version, features,
  esrt, intrusion, inputmodules, test, power, thermal, sensors, pdports, info, pd_info,
  dp_hdmi_info, audio_card_info, privacy, idle, input_deck_mode, charge_limit, kblight,
  fp_brightness, dp_hdmi_update, pd_bin, ec_bin, ho2_capsule, hash, console, capsule, flash,
}

module _ (D : Driver) (x : Machine) where
  power-IsSmall : IsSmall D x (ask D (λ code. code) (get_and_print_power_info D x.debug))
  unfolding get_and_print_power_info
  power-IsSmall code w w' e =
      exit_code-small (power_info D x.debug w.0).0
        (ask-ok D (λ r. r) (get_and_print_power_info D x.debug) w e)
    where
      exit_code-small : (m : Maybe PowerInfo) → exit_code m ≡ ok code → code ≤ 1
      exit_code-small m h = ground arith

  with_file-IsSmall :
      {A : Type 0} (path : String) (f : List ℕ → Maybe A) → IsSmall D x (with_file D x path f)
  with_file-IsSmall path f =
      elim-IsSmall D x (x.read_file path) (λ bytes. done D x (return D (f bytes))) _
        (λ bytes. done-IsSmall D x _) (return-IsSmall D x 0 (omega arith))

  perform-IsSmall : (a : Action) → a ≢ help → IsSmall D x (perform D x a)
  unfolding perform
  perform-IsSmall help h = absurd (h refl)
  perform-IsSmall versions h = done-IsSmall D x _
  perform-IsSmall version h = return-IsSmall D x 0 (omega arith)
  perform-IsSmall features h = done-IsSmall D x _
  perform-IsSmall esrt h = done-IsSmall D x _
  perform-IsSmall (Action.compare_version device target) h = compare_version-IsSmall D x device _
  perform-IsSmall intrusion h = done-IsSmall D x _
  perform-IsSmall inputmodules h = done-IsSmall D x _
  perform-IsSmall (input_deck_mode mode) h = done-IsSmall D x _
  perform-IsSmall (charge_limit limit) h = done-IsSmall D x _
  perform-IsSmall (Action.get_gpio name) h = done-IsSmall D x _
  perform-IsSmall (fp_brightness level) h = done-IsSmall D x _
  perform-IsSmall (kblight (some percent)) h = and_then-IsSmall D x _ _ λ _. done-IsSmall D x _
  perform-IsSmall (kblight none) h = done-IsSmall D x _
  perform-IsSmall (console follow) h = done-IsSmall D x _
  perform-IsSmall (console recent) h = done-IsSmall D x _
  perform-IsSmall (Action.reboot_ec command) h = done-IsSmall D x _
  perform-IsSmall test h = and_then-IsSmall D x _ _ tested
    where
      tested :
          (found : Option (Unit {0}))
          → IsSmall D x (return D (ok (elim found [ some _ ↦ 0 | none ↦ 1 ])))
      tested none = return-IsSmall D x 1 (omega arith)
      tested (some _) = return-IsSmall D x 0 (omega arith)
  perform-IsSmall power h = power-IsSmall
  perform-IsSmall thermal h = done-IsSmall D x _
  perform-IsSmall sensors h = done-IsSmall D x _
  perform-IsSmall pdports h = done-IsSmall D x _
  perform-IsSmall info h = return-IsSmall D x 0 (omega arith)
  perform-IsSmall pd_info h = done-IsSmall D x _
  perform-IsSmall dp_hdmi_info h = done-IsSmall D x _
  perform-IsSmall (dp_hdmi_update path) h = with_file-IsSmall path x.update_cards
  perform-IsSmall audio_card_info h = done-IsSmall D x _
  perform-IsSmall privacy h = done-IsSmall D x _
  perform-IsSmall (pd_bin path) h = with_file-IsSmall path analyze_ccgx_pd_fw
  perform-IsSmall (ec_bin path) h = with_file-IsSmall path (analyze_ec_fw x.captures)
  perform-IsSmall (capsule path dump) h =
      elim-IsSmall D x (x.read_file path) _ _ (λ image. done-IsSmall D x _)
        (return-IsSmall D x 0 (omega arith))
  perform-IsSmall (ho2_capsule path) h = with_file-IsSmall path (analyze_bios_capsule x.captures)
  perform-IsSmall (Action.dump_ec_flash path) h = done-IsSmall D x _
  perform-IsSmall (flash part path) h = done-IsSmall D x _
  perform-IsSmall (hash path) h = with_file-IsSmall path (λ bytes. ok tt)
  perform-IsSmall idle h = return-IsSmall D x 0 (omega arith)

is_help_or_not : (a : Action) → (a ≡ help) ⊎ (a ≢ help)
is_help_or_not help = inl refl
is_help_or_not a = inr (λ e. cc)

abbrev NotHelp : Action → Type 0
NotHelp a = a ≢ help

choose_file-NotHelp : (args : Cli) → NotHelp (choose_file args)
unfolding choose_file
choose_file-NotHelp args h = ground arith

choose_report-NotHelp : (args : Cli) → NotHelp (choose_report args)
unfolding choose_report
choose_report-NotHelp args h = let k = choose_file-NotHelp args in ground arith

choose_setting-NotHelp : (args : Cli) → NotHelp (choose_setting args)
unfolding choose_setting
choose_setting-NotHelp args h = let k = choose_report-NotHelp args in ground arith

choose-help : (args : Cli) → choose args ≡ help → args.help ≡ true
unfolding choose
choose-help args h = let k = choose_setting-NotHelp args in ground arith

module _ {State : Type 0} (win_driver cros_ec_driver is_windows : Bool)
    (drivers : CrosEcDriverType → Option (Backend State)) where
  -- The action of `choose`, on the driver that was chosen.
  perform-code :
      (D : Driver) (x : Machine) (args : Cli) (w w' : World D) (code : ℕ)
      → perform D x (choose args) w ≡ some (ok code, w')
      → (code ≤ 2) × (code ≡ 2 → (args.help ≡ true) × (w' ≡ w))
  unfolding perform
  perform-code D x args w w' code e = elim (is_help_or_not (choose args)) [
    | inl is_help ↦
        let ended : return D (ok 2) w ≡ some (ok code, w') =
          subst (λ a. perform D x a w ≡ some (ok code, w')) is_help e in
        (ground arith, λ _. (choose-help args is_help, ground arith))
    | inr other ↦
        let small = perform-IsSmall D x (choose args) other code w w' e in
        (omega arith, λ two. absurd (omega arith))
  ]

  -- If `run_with_args` ends, its code is 0, 1 or 2. It is 2 only where help is asked for, and then
  -- nothing was sent to the EC and no file was written.
  pub run_with_args-code :
      (x : Machine) (args : Cli) (w w' : State × Disk) (code : ℕ)
      → run_with_args win_driver cros_ec_driver is_windows drivers x args w ≡ some (ok code, w')
      → (code ≤ 2) × (code ≡ 2 → (args.help ≡ true) × (w' ≡ w))
  unfolding run_with_args
  run_with_args-code x args w w' code e =
      driven (chosen_driver win_driver cros_ec_driver is_windows drivers args.driver) refl
    where
      driven :
          (chosen : Maybe (Option CrosEcDriverType))
          → chosen_driver win_driver cros_ec_driver is_windows drivers args.driver ≡ chosen
          → (code ≤ 2) × (code ≡ 2 → (args.help ≡ true) × (w' ≡ w))
      driven (ok (some driver)) is = perform-code _ _ args w w' code (rw (is, run_with_args) at e)
      driven (ok none) is = ground arith
      driven (err _) is = ground arith
      driven panic is = ground arith
