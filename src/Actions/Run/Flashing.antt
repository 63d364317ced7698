-- ===== src/Actions/Run/Flashing.antt =====
-- commandline/mod.rs: when the options for flashing leave the EC as it is.
use Prim.Native.String.{String}
use framework_system.Base.{
  ℕ, List, Bool, true, false, ◌≡◌, ◌≢◌, refl, ◌⊎◌, inl, inr, subst, Option, none, some, Maybe,
  Result, ok, err, panic, Bool-cases, Option-cases, arith,
}
use framework_system.Cli.Options.{Cli, CrosEcDriverType}
use framework_system.Ec.Driver.{Driver, Call}
use framework_system.Ec.Select.{Backend, cros_ec_with}
use framework_system.Ec.Select.Guards.{reflash-elsewhere}
use framework_system.Ec.Flash.{EcFlashType, reflash}
use framework_system.Ec.Flash.Safety.{reflash-untouched}
use framework_system.Actions.Act.{
  Machine, Disk, World, Act, ignored, return, after, and_then, ask, is_framework_machine,
}
use framework_system.Actions.Choose.{choose, flash}
use framework_system.Actions.SelfTest.{flash_ec}
use framework_system.Actions.Perform.{done, perform}
use framework_system.Actions.Run.{chosen_driver, configure, run_with_args}

module _ (D : Driver) where
  -- Where a call leaves the EC as it is, so does the action that it is.
  ask-untouched :
      {E A B : Type 0} {r : Maybe B} {w' : World D} (f : Result E A → Maybe B) (m : Call D E A)
      (w : World D)
      → (m w.0).1 ≡ w.0
      → ask D f m w ≡ some (r, w')
      → w' ≡ w
  ask-untouched f m w h e = ground arith

  after-untouched :
      {A : Type 0} {r : Maybe ℕ} {w w' : World D} (a : Option (Maybe A × World D))
      → after D (λ _. return D (ok 0)) a ≡ some (r, w')
      → ((b : Maybe A) (w1 : World D) → a ≡ some (b, w1) → w1 ≡ w)
      → w' ≡ w
  after-untouched none e h = cc
  after-untouched (some (ok a, w1)) e h = let same = h (ok a) w1 refl in ground arith
  after-untouched (some (err a, w1)) e h = let same = h (err a) w1 refl in ground arith
  after-untouched (some (panic, w1)) e h = let same = h panic w1 refl in ground arith

  done-untouched :
      {A : Type 0} {r : Maybe ℕ} {w' : World D} (x : Machine) (m : Act D A) (w : World D)
      → done D x m w ≡ some (r, w')
      → ((b : Maybe A) (w1 : World D) → m w ≡ some (b, w1) → w1 ≡ w)
      → w' ≡ w
  unfolding and_then
  done-untouched x m w e h = after-untouched (m w) e h

  flash_ec-untouched :
      {r : Maybe (Unit {0})} {w' : World D} (x : Machine) (path : String) (part : EcFlashType)
      (w : World D)
      → (x.uefi ≡ true → (image : List ℕ) → (reflash D x.captures image part w.0).1 ≡ w.0)
      → flash_ec D x path part w ≡ some (r, w')
      → w' ≡ w
  unfolding flash_ec
  flash_ec-untouched x path part w h e = elim (Bool-cases x.uefi) [
    | inr os ↦ ground arith
    | inl uefi ↦ elim (Option-cases (x.read_file path)) [
      | inl absent ↦ ground arith
      | inr (image, found) ↦
          ask-untouched ignored (reflash D x.captures image part) w (h uefi image)
            (rw (uefi, found, flash_ec) at e)
    ]
  ]

  flash-untouched :
      {r : Maybe ℕ} {w' : World D} (x : Machine) (path : String) (part : EcFlashType) (w : World D)
      → (x.uefi ≡ true → (image : List ℕ) → (reflash D x.captures image part w.0).1 ≡ w.0)
      → perform D x (flash part path) w ≡ some (r, w')
      → w' ≡ w
  unfolding perform
  flash-untouched x path part w h e =
      done-untouched x (flash_ec D x path part) w e
        (λ b w1 flashed. flash_ec-untouched x path part w h flashed)

module _ {State : Type 0} (win_driver cros_ec_driver is_windows : Bool)
    (drivers : CrosEcDriverType → Option (Backend State)) where
  -- The part to flash, the build or the machine keeps the flash from being written.
  abbrev pub IsKept : Machine → EcFlashType → Type 0
  IsKept x part = (part ≢ EcFlashType.rw) ⊎ (x.uefi ≡ false) ⊎ (is_framework_machine x ≡ false)

  reflash-IsKept :
      (debug : Bool) (x : Machine) (part : EcFlashType) (driver : CrosEcDriverType) (image : List ℕ)
      (s : State)
      → x.uefi ≡ true
      → IsKept x part
      → (reflash
          (cros_ec_with debug (is_framework_machine x) drivers driver)
          x.captures
          image
          part
          s).1
        ≡ s
  reflash-IsKept debug x part driver image s uefi (inl other) =
      reflash-untouched _ x.captures image part s (λ e. absurd (other e))
  reflash-IsKept debug x part driver image s uefi (inr (inl os)) = cc
  reflash-IsKept debug x part driver image s uefi (inr (inr foreign)) =
      rw foreign (reflash-elsewhere debug drivers driver x.captures image part s)

  -- Where an option for flashing is chosen, `run_with_args` leaves the EC and all files as they are,
  -- unless the RW half is asked for in a build for UEFI on a Framework machine.
  pub run_with_args-kept :
      (x : Machine) (args : Cli) (part : EcFlashType) (path : String) (r : Maybe ℕ)
      (w w' : State × Disk)
      → choose args ≡ flash part path
      → IsKept (configure args x) part
      → run_with_args win_driver cros_ec_driver is_windows drivers x args w ≡ some (r, w')
      → w' ≡ w
  unfolding run_with_args
  run_with_args-kept x args part path r w w' chosen_flash kept e =
      driven (chosen_driver win_driver cros_ec_driver is_windows drivers args.driver) refl
    where
      driven :
          (chosen : Maybe (Option CrosEcDriverType))
          → chosen_driver win_driver cros_ec_driver is_windows drivers args.driver ≡ chosen
          → w' ≡ w
      driven (ok (some driver)) is =
          let configured = configure args x in
          let D = cros_ec_with x.debug (is_framework_machine configured) drivers driver in
          let run : perform D configured (choose args) w ≡ some (r, w') =
            rw (is, run_with_args) at e in
          flash-untouched D configured path part w
            (λ uefi image. reflash-IsKept x.debug configured part driver image w.0 uefi kept)
            (subst (λ a. perform D configured a w ≡ some (r, w')) chosen_flash run)
      driven (ok none) is = ground arith
      driven (err _) is = ground arith
      driven panic is = ground arith
