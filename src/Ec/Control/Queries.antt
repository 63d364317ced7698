-- ===== src/Ec/Control/Queries.antt =====
-- What the queries of `CrosEc` (chromium_ec/mod.rs) rely on.
use framework_system.Base.{ℕ, ◌%◌, ◌^◌, Bool, ◌≡◌, refl, err, arith}
use framework_system.Ec.Status.{EcError}
use framework_system.Ec.Driver.{Driver}
use framework_system.Ec.Commands.{send}
use framework_system.Ec.Requests.{get_cmd_versions_v1_request}
use framework_system.Ec.Control.{version_mask, cmd_version_supported}

module _ (D : Driver) where
  -- On an EC that does not know version 1 of the request, a command of 16 bits is taken for the
  -- command with its low byte: both give the same answer, for every version.
  cmd_version_supported-low_byte :
      (debug : Bool) (cmd version : ℕ) (s : D.State) (e : EcError)
      → ((c : ℕ) → send D (get_cmd_versions_v1_request c) s ≡ (err e, s))
      → cmd_version_supported D debug cmd version s
        ≡ cmd_version_supported D debug (cmd % 2 ^ 8) version s
  unfolding cmd_version_supported version_mask
  cmd_version_supported-low_byte debug cmd version s e refused =
      let low : (cmd % 2 ^ 8) % 2 ^ 8 ≡ cmd % 2 ^ 8 = omega arith in
      rw (refused cmd, refused (cmd % 2 ^ 8), low) refl
