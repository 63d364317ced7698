-- ===== src/Ec/WinDriver.antt =====
-- chromium_ec/windows.rs: the driver for Windows, reached by `DeviceIoControl`.
pub mod Accepted
use framework_system.Base.{
  ℕ, ◌+◌, ◌-◌, ◌*◌, ◌^◌, ◌≤◌, ◌<◌, min, List, [], ◌++◌, length, replicate, take, ltb, lt→ltb,
  le→not_ltb, Bool, true, false, if◌then◌else◌, Option, none, some, Result, ok, err, panic, ◌>>=◌,
  slice, ◌≡◌, refl, arith, length-append, length-replicate, slice_prefix, >>=-ok,
}
use framework_system.Base.Calls.{Call, pure, ◌≫=◌}
use framework_system.Ec.Status.{EcError, EcResult}
use framework_system.Ec.Port.{response_len}
use framework_system.Ec.Ioctl.{check_result}
use framework_system.Ec.Select.{Backend, ec_memmap_size}

abbrev pub crosec_cmd_max_request : ℕ
crosec_cmd_max_request = 0x100

abbrev pub file_device_cros_embedded_controller : ℕ
file_device_cros_embedded_controller = 0x80EC

-- The device type, the function, the method and the access; the shifts stay inside 32 bits for
-- the two codes below.
unfoldable pub ctl_code : ℕ → ℕ → ℕ → ℕ → ℕ
ctl_code device_type function method access =
    device_type * 2 ^ 16 + access * 2 ^ 14 + function * 2 ^ 2 + method

-- Buffered, for reading and writing.
abbrev pub ioctl_crosec_xcmd : ℕ
unfolding ctl_code
ioctl_crosec_xcmd = ctl_code file_device_cros_embedded_controller 0x801 0 3

-- Buffered, for reading.
abbrev pub ioctl_crosec_rdmem : ℕ
unfolding ctl_code
ioctl_crosec_rdmem = ctl_code file_device_cros_embedded_controller 0x802 0 1

pub record CrosEcReadMem : Type 0 where
  pub offset : ℕ
  pub bytes : ℕ
  pub buffer : List ℕ

pub record CrosEcCommand : Type 0 where
  pub version : ℕ
  pub command : ℕ
  pub outsize : ℕ
  pub insize : ℕ
  pub result : ℕ
  pub buffer : List ℕ

-- The system: `CreateFileW` on the device, and `DeviceIoControl` with a code, on the struct of each
-- code. `none` is a call that fails; for a command there is the number of bytes that were returned.
pub record System : Type 1 where
  pub State : Type 0
  pub create_file : State → Bool × State
  pub read_mem : ℕ → CrosEcReadMem → State → Option CrosEcReadMem × State
  pub send_cmd : ℕ → CrosEcCommand → State → Option (ℕ × CrosEcCommand) × State

-- The bytes are put at the start of a buffer of 256; there must not be more.
unfoldable pub make_command : ℕ → ℕ → List ℕ → EcResult CrosEcCommand
make_command command command_version payload =
    if ltb crosec_cmd_max_request (length payload)
    then panic
    else ok (record {
      version = command_version;
      command = command;
      outsize = length payload;
      insize = crosec_cmd_max_request - response_len;
      result = 0xFF;
      buffer = payload ++ replicate (crosec_cmd_max_request - length payload) 0;
    })

-- The number of bytes may be larger than the buffer.
unfoldable pub decode_answer : ℕ × CrosEcCommand → EcResult (List ℕ)
decode_answer (returned, cmd) =
    check_result cmd.result >>= λ _. slice cmd.buffer 0 (min returned crosec_cmd_max_request)

-- `unwrap` on the result of a call of the system.
abbrev pub unwrapped : {A : Type 0} → Option A → EcResult A
unwrapped none = panic
unwrapped (some a) = ok a

module _ (W : System) where
  -- `DEVICE`: whether there is a handle, beside the state of the system.
  abbrev pub Session : Type 0
  Session = Bool × W.State

  abbrev Io : Type 0 → Type 0
  Io A = Call Session EcError A

  -- A device that cannot be opened is a panic, so there is a handle behind this call.
  unfoldable pub init : Io (Unit {0})
  init (true, s) = (ok tt, (true, s))
  init (false, s) =
      let (opened, s1) = W.create_file s in (if opened then ok tt else panic, (opened, s1))

  abbrev control : {A : Type 0} → (W.State → Option A × W.State) → Io A
  control f (is_open, s) = let (r, s1) = f s in (unwrapped r, (is_open, s1))

  unfoldable pub read_memory : ℕ → ℕ → Io (List ℕ)
  read_memory offset size =
      init
      ≫= (λ _. control (
          W.read_mem ioctl_crosec_rdmem
            (record { offset = offset; bytes = size; buffer = replicate ec_memmap_size 0 })))
      ≫= λ rm. pure (slice rm.buffer 0 size)

  unfoldable pub send_command : ℕ → ℕ → List ℕ → Io (List ℕ)
  send_command command command_version payload =
      init
      ≫= (λ _. pure (make_command command command_version payload))
      ≫= (λ cmd. control (W.send_cmd ioctl_crosec_xcmd cmd))
      ≫= λ answer. pure (decode_answer answer)

  abbrev pub windows_backend : Backend Session
  windows_backend = record { read = read_memory; send = send_command }
