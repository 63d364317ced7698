-- ===== src/Ec/Select.antt =====
-- chromium_ec/mod.rs: `CrosEc` as a driver. It hands a call on to the driver that was chosen, on a
-- Framework machine only.
pub mod Guards
use framework_system.Base.{
  ℕ, ◌+◌, ◌%◌, ◌^◌, ltb, List, [], ◌∷◌, Bool, true, false, not, ◌||◌, if◌then◌else◌, Option, none,
  some, Maybe, Result, ok, err, panic, index,
}
use framework_system.Cli.Options.{CrosEcDriverType, portio, cros_ec, windows}
use framework_system.Ec.Status.{EcError, EcResult, device_error}
use framework_system.Ec.Driver.{Driver}

abbrev pub ec_memmap_size : ℕ
ec_memmap_size = 0xFF

-- A driver of the build, over a state that the drivers share.
pub record Backend (State : Type 0) : Type 0 where
  pub read : ℕ → ℕ → State → EcResult (List ℕ) × State
  pub send : ℕ → ℕ → List ℕ → State → EcResult (List ℕ) × State

-- `print_err`: the error is dropped.
unfoldable pub print_err : {A : Type 0} → EcResult A → Maybe A
print_err (ok a) = ok a
print_err (err e) = err tt
print_err panic = panic

abbrev same_driver : CrosEcDriverType → CrosEcDriverType → Bool
same_driver portio portio = true
same_driver cros_ec cros_ec = true
same_driver windows windows = true
same_driver _ _ = false

-- `Vec::contains`
abbrev contains : List CrosEcDriverType → CrosEcDriverType → Bool
contains [] driver = false
contains (d ∷ ds) driver = same_driver d driver || contains ds driver

-- The features of a build, and the drivers that they bring in. The first driver is the default.
module _ (win_driver cros_ec_driver is_windows : Bool) where
  unfoldable pub available_drivers : List CrosEcDriverType
  available_drivers =
      let portio_drivers : List CrosEcDriverType = if is_windows then [] else portio ∷ [] in
      let drivers : List CrosEcDriverType =
        if cros_ec_driver then cros_ec ∷ portio_drivers else portio_drivers in
      if win_driver then windows ∷ drivers else drivers

  -- `CrosEc::new`: the first driver; there is none in a build for Windows without its driver.
  unfoldable pub new : Result EcError CrosEcDriverType
  unfolding available_drivers
  new = index available_drivers 0

  -- `CrosEc::with`
  unfoldable pub with_driver : CrosEcDriverType → Option CrosEcDriverType
  unfolding available_drivers
  with_driver driver = if contains available_drivers driver then some driver else none

-- `offset + length` on 16 bits, in a build with or without overflow checks.
abbrev pub add_u16 : {E : Type 0} → Bool → ℕ → ℕ → Result E ℕ
add_u16 debug a b =
    if ltb (a + b) (2 ^ 16) then ok (a + b) else if debug then panic else ok ((a + b) % 2 ^ 16)

-- `drivers` are those of the build that the two `match`es name.
module _ {State : Type 0} (debug is_framework : Bool)
    (drivers : CrosEcDriverType → Option (Backend State)) where
  no_driver : EcResult (List ℕ)
  no_driver = err (device_error "No EC driver available" [])

  unfoldable pub read_memory : CrosEcDriverType → ℕ → ℕ → State → Maybe (List ℕ) × State
  unfolding print_err no_driver
  read_memory driver offset length s =
      if not is_framework then (err tt, s) else elim (add_u16 debug offset length) [
        | panic ↦ (panic, s)
        | err e ↦ (err e, s)
        | ok end ↦ if ltb ec_memmap_size end then (err tt, s) else elim (drivers driver) [
          | none ↦ (print_err no_driver, s)
          | some b ↦ let answer = b.read offset length s in (print_err answer.0, answer.1)
        ]
      ]

  unfoldable pub send_command :
      CrosEcDriverType → ℕ → ℕ → List ℕ → State → EcResult (List ℕ) × State
  unfolding no_driver
  send_command driver command version payload s =
      if not is_framework
      then (err (device_error "Not a Framework Laptop" []), s)
      else elim (drivers driver) [
        | none ↦ (no_driver, s)
        | some b ↦ b.send command version payload s
      ]

  abbrev pub cros_ec_with : CrosEcDriverType → Driver
  cros_ec_with driver = record {
    State = State;
    send_command = send_command driver;
    read_memory = read_memory driver;
  }
