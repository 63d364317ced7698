-- ===== src/Ccgx/Device/Firmware.antt =====
-- The firmware versions of a PD controller that answers every read.
use framework_system.Base.{
  ℕ, ◌≤◌, ◌≡◌, refl, arith, List, [], ◌∷◌, length, take, drop, Bool, ok, some, index, slice_prefix,
  slice_from_in_range, length-take-drop, length-take, length-drop,
}
use framework_system.Ec.Status.{EcError}
use framework_system.Ccgx.Versions.{
  FwMode, boot_loader, backup_fw, main_fw, BaseVersion, AppVersion, ControllerVersion,
  base_version_from, app_version_from,
}
use framework_system.Ccgx.Device.{register_address, version_register, get_single_fw_ver}
use framework_system.Ccgx.Device.Reading.{Controller, ccgx_read-Controller}

base_of_bytes :
    (xs : List ℕ) → 4 ≤ length xs → (v : BaseVersion) × (base_version_from {E = EcError} xs ≡ ok v)
unfolding base_version_from index
base_of_bytes [] h = absurd (omega arith)
base_of_bytes (a ∷ []) h = absurd (omega arith)
base_of_bytes (a ∷ b ∷ []) h = absurd (omega arith)
base_of_bytes (a ∷ b ∷ c ∷ []) h = absurd (omega arith)
base_of_bytes (a ∷ b ∷ c ∷ d ∷ xs) h = (_, refl)

app_of_bytes :
    (xs : List ℕ) → 4 ≤ length xs → (v : AppVersion) × (app_version_from {E = EcError} xs ≡ ok v)
unfolding app_version_from index
app_of_bytes [] h = absurd (omega arith)
app_of_bytes (a ∷ []) h = absurd (omega arith)
app_of_bytes (a ∷ b ∷ []) h = absurd (omega arith)
app_of_bytes (a ∷ b ∷ c ∷ []) h = absurd (omega arith)
app_of_bytes (a ∷ b ∷ c ∷ d ∷ xs) h = (_, refl)

abbrev pub version_at_register : FwMode → ℕ
version_at_register mode = register_address (version_register mode)

register-le : (mode : FwMode) → version_at_register mode ≤ 0x20
register-le boot_loader = omega arith
register-le backup_fw = omega arith
register-le main_fw = omega arith

-- The versions of a firmware of a controller that answers every read are those of the 8 bytes at
-- its register: 4 for the base version, and 4 for the application version.
pub get_single_fw_ver-Controller :
    (C : Controller) (debug : Bool) (mode : FwMode) (s : C.driver.State)
    → 0x28 ≤ length C.registers
    → (v : ControllerVersion) × (get_single_fw_ver C.driver C.platform C.port debug 8 mode s
        ≡ some (ok v, s))
      × (base_version_from {E = EcError}
            (take 4 (take 8 (drop (version_at_register mode) C.registers)))
          ≡ ok v.base)
      × (app_version_from {E = EcError}
            (drop 4 (take 8 (drop (version_at_register mode) C.registers)))
          ≡ ok v.app)
unfolding get_single_fw_ver
get_single_fw_ver-Controller C debug mode s h =
    let bytes = take 8 (drop (version_at_register mode) C.registers) in
    let full : length bytes ≡ 8 =
      length-take-drop C.registers (version_at_register mode) 8 (omega (arith, register-le mode)) in
    let (base, at_base) = base_of_bytes (take 4 bytes) (omega (arith, length-take 4 bytes, full)) in
    let (app, at_app) = app_of_bytes (drop 4 bytes) (omega (arith, length-drop 4 bytes, full)) in
    let read =
      ccgx_read-Controller C debug (version_at_register mode) 8 s
        (omega (arith, register-le mode)) in
    (
      record { base = base; app = app },
      rw
          (
            read,
            slice_prefix {E = EcError} bytes 4 (omega (arith, full)),
            at_base,
            slice_from_in_range {E = EcError} bytes 4 (omega (arith, full)),
            at_app,
          )
          refl,
      at_base,
      at_app,
    )
