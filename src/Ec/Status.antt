-- ===== src/Ec/Status.antt =====
-- The errors of an EC call, and the response codes (chromium_ec/mod.rs).
use Prim.Native.String.{String}
use framework_system.Base.{ℕ, List, Result}

pub data EcResponseStatus : Type 0 where
  success invalid_command error invalid_parameter access_denied invalid_response : EcResponseStatus
  invalid_version invalid_checksum in_progress unavailable timeout overflow : EcResponseStatus
  invalid_header request_truncated response_too_big bus_error busy : EcResponseStatus

-- `EcResponseStatus as u16`
unfoldable pub status_code : EcResponseStatus → ℕ
status_code success = 0
status_code invalid_command = 1
status_code error = 2
status_code invalid_parameter = 3
status_code access_denied = 4
status_code invalid_response = 5
status_code invalid_version = 6
status_code invalid_checksum = 7
status_code in_progress = 8
status_code unavailable = 9
status_code timeout = 10
status_code overflow = 11
status_code invalid_header = 12
status_code request_truncated = 13
status_code response_too_big = 14
status_code bus_error = 15
status_code busy = 16

-- The text of a device error, and the numbers that `format!` puts into it.
pub data EcError : Type 0 where
  response : EcResponseStatus → EcError
  unknown_response_code : ℕ → EcError
  device_error : String → List ℕ → EcError

abbrev pub EcResult {ℓ} : Type ℓ → Type ℓ
EcResult A = Result EcError A
