-- ===== src/Actions/Run.antt =====
-- commandline/mod.rs: `run_with_args`.
pub mod Codes
pub mod Flashing
use framework_system.Base.{ℕ, Bool, Option, none, some, Maybe, ok, err, panic}
use framework_system.Cli.Options.{Cli, CrosEcDriverType}
use framework_system.Ccgx.Device.{generic_framework}
use framework_system.Smbios.{config_set}
use framework_system.Ec.Select.{Backend, new, with_driver, cros_ec_with}
use framework_system.Actions.Act.{Machine, Disk, is_framework_machine}
use framework_system.Actions.Choose.{choose}
use framework_system.Actions.Perform.{perform}

-- The configuration that the options give, all three together.
unfoldable pub configure : Cli → Machine → Machine
configure args x = elim args.pd_addrs [
  | none ↦ x
  | some addresses ↦ elim args.pd_ports [
    | none ↦ x
    | some ports ↦ elim args.has_mec [
      | none ↦ x
      | some mec ↦ record x {
        globals = config_set (generic_framework addresses ports mec) x.globals;
      }
    ]
  ]
]

-- The features of the build that choose drivers, and what its drivers do.
module _ {State : Type 0} (win_driver cros_ec_driver is_windows : Bool)
    (drivers : CrosEcDriverType → Option (Backend State)) where
  -- The driver that the options name, or the default one. `ok none` is a driver that is not
  -- available.
  unfoldable pub chosen_driver : Option CrosEcDriverType → Maybe (Option CrosEcDriverType)
  unfolding with_driver new
  chosen_driver (some named) = ok (with_driver win_driver cros_ec_driver is_windows named)
  chosen_driver none = elim (new win_driver cros_ec_driver is_windows) [
    | ok driver ↦ ok (some driver)
    | err _ ↦ panic
    | panic ↦ panic
  ]

  unfoldable pub run_with_args : Machine → Cli → State × Disk → Option (Maybe ℕ × (State × Disk))
  unfolding chosen_driver perform choose configure
  run_with_args x args w = elim (chosen_driver args.driver) [
    | ok (some driver) ↦
        let configured = configure args x in
        perform (cros_ec_with x.debug (is_framework_machine configured) drivers driver) configured
          (choose args) w
    | ok none ↦ some (ok 1, w)
    | err _ ↦ some (panic, w)
    | panic ↦ some (panic, w)
  ]
