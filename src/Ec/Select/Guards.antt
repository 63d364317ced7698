-- ===== src/Ec/Select/Guards.antt =====
-- What `CrosEc` (chromium_ec/mod.rs) keeps from its drivers.
use framework_system.Base.{
  ℕ, ◌+◌, ◌≤◌, List, Bool, true, false, ◌≡◌, refl, Option, ok, err, panic, arith,
}
use framework_system.EcBinary.{Captures}
use framework_system.Cli.Options.{CrosEcDriverType}
use framework_system.Ec.Status.{EcResult}
use framework_system.Ec.Driver.{
  Driver, bind, pure, send_request, send_command_extra, send_command_vec_extra,
}
use framework_system.Ec.Flash.{
  EcFlashType, full, ro, rw, check_version, reflash, flash_rw_half, flash_notify,
}
use framework_system.Ec.Flash.Safety.{reflash-untouched}
use framework_system.Ec.Select.{Backend, read_memory, send_command, cros_ec_with}

module _ {State : Type 0} (debug : Bool) (drivers : CrosEcDriverType → Option (Backend State))
    (driver : CrosEcDriverType) where
  abbrev elsewhere : Driver
  elsewhere = cros_ec_with debug false drivers driver

  checked_rw_half-untouched :
      (captures : Captures) (image : List ℕ) (check : EcResult (Unit {0})) (s : State)
      → (bind elsewhere (pure elsewhere check) (λ _. flash_rw_half elsewhere captures image) s).1
        ≡ s
  unfolding flash_rw_half flash_notify send_request send_command_extra send_command_vec_extra
      send_command
  checked_rw_half-untouched captures image (ok tt) s = refl
  checked_rw_half-untouched captures image (err e) s = refl
  checked_rw_half-untouched captures image panic s = refl

  -- On a machine that is not a Framework, `reflash` through `CrosEc` leaves the state of the drivers
  -- as it is, whatever the image, the part to flash, the driver and the build are.
  pub reflash-elsewhere :
      (captures : Captures) (image : List ℕ) (t : EcFlashType) (s : State)
      → (reflash (cros_ec_with debug false drivers driver) captures image t s).1 ≡ s
  unfolding reflash
  reflash-elsewhere captures image full s =
      reflash-untouched elsewhere captures image full s (λ e. cc)
  reflash-elsewhere captures image ro s = reflash-untouched elsewhere captures image ro s (λ e. cc)
  reflash-elsewhere captures image rw s =
      checked_rw_half-untouched captures image (check_version elsewhere captures image false) s

module _ {State : Type 0} (is_framework : Bool)
    (drivers : CrosEcDriverType → Option (Backend State)) (driver : CrosEcDriverType) where
  -- In a build with overflow checks, `CrosEc` only returns bytes of the memory map on a Framework
  -- machine, and only for a range that ends at or below 0xFF.
  pub read_memory-guarded :
      (offset length : ℕ) (bytes : List ℕ) (s : State)
      → (read_memory true is_framework drivers driver offset length s).0 ≡ ok bytes
      → (is_framework ≡ true) × (offset + length ≤ 0xFF)
  unfolding read_memory
  read_memory-guarded offset length bytes s h = ground arith
