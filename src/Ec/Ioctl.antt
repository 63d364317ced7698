-- ===== src/Ec/Ioctl.antt =====
-- chromium_ec/cros_ec.rs: the driver of the Linux kernel, reached by two `ioctl`s.
pub mod Answers
use framework_system.Base.{
  ℕ, ◌-◌, ◌%◌, ◌^◌, min, List, [], ◌∷◌, ◌++◌, length, take, replicate, Bool, true, false,
  if◌then◌else◌, ◌==◌, Option, none, some, Result, ok, err, panic, assert, ◌>>=◌, slice,
}
use framework_system.Base.Calls.{Call, pure, ◌≫=◌}
use framework_system.Ec.Status.{
  EcResponseStatus, success, EcError, response, unknown_response_code, device_error, EcResult,
}
use framework_system.Ec.Commands.{command_code, read_mem_map}
use framework_system.Ec.Port.{status_from}
use framework_system.Ec.Select.{Backend, ec_memmap_size}

abbrev pub in_size : ℕ
in_size = 256

abbrev pub read_directly : Bool
read_directly = true

-- The struct for the kernel; `buffer` is its field `data`.
pub record CrosEcCommandV2 : Type 0 where
  pub version : ℕ
  pub command : ℕ
  pub outsize : ℕ
  pub insize : ℕ
  pub result : ℕ
  pub buffer : List ℕ

-- The kernel: the file of the device, and its `ioctl`s, which give `none` if they fail. The number
-- of a successful command is that of the bytes that were returned; the struct is written by the
-- kernel, also if it fails.
pub record Kernel : Type 1 where
  pub State : Type 0
  pub open_device : State → Bool × State
  pub cros_ec_mem : ℕ → ℕ → State → Option (List ℕ) × State
  pub cros_ec_cmd : CrosEcCommandV2 → State → (Option ℕ × CrosEcCommandV2) × State

-- What a status says: the code must be known, and stand for success.
unfoldable pub check_result : ℕ → EcResult (Unit {0})
unfolding status_from
check_result code = elim (status_from code) [
  | none ↦ err (unknown_response_code code)
  | some success ↦ ok tt
  | some status ↦ err (response status)
]

-- The status comes before the result of the `ioctl`.
unfoldable pub decode_answer : Option ℕ × CrosEcCommandV2 → EcResult (List ℕ)
decode_answer (result, cmd) = check_result cmd.result >>= λ _. returned_bytes result cmd.buffer
  where
    returned_bytes : Option ℕ → List ℕ → EcResult (List ℕ)
    returned_bytes none buffer =
        err (device_error "ioctl to send command to EC failed with {:?}" [])
    returned_bytes (some result_size) buffer = slice buffer 0 result_size

-- `copy_from_slice` wants as many bytes as there are in the part that it writes.
unfoldable pub make_command : ℕ → ℕ → List ℕ → EcResult CrosEcCommandV2
make_command command command_version payload =
    let size = min in_size (length payload) in
    assert (length payload == size) >>= λ _. ok (record {
      version = command_version;
      command = command;
      outsize = size;
      insize = in_size;
      result = 0xFF;
      buffer = payload ++ replicate (in_size - size) 0;
    })

module _ (K : Kernel) where
  -- `CROS_EC_FD`: whether the device is open, beside the state of the kernel.
  abbrev pub Session : Type 0
  Session = Bool × K.State

  abbrev Io : Type 0 → Type 0
  Io A = Call Session EcError A

  -- A device that cannot be opened is only reported.
  unfoldable pub init : Io (Unit {0})
  init (true, s) = (ok tt, (true, s))
  init (false, s) = let (opened, s1) = K.open_device s in (ok tt, (opened, s1))

  -- `get_fildes` unwraps the file.
  abbrev pub on_device : {A : Type 0} → (K.State → EcResult A × K.State) → Io A
  on_device f (false, s) = (panic, (false, s))
  on_device f (true, s) = let (r, s1) = f s in (r, (true, s1))

  unfoldable pub read_mem_directly : ℕ → ℕ → Io (List ℕ)
  read_mem_directly offset size =
      init
      ≫= (λ _.
          on_device λ s. let (buffer, s1) = K.cros_ec_mem offset size s in (unwrapped buffer, s1))
      ≫= λ buffer. pure (slice buffer 0 size)
    where
      unwrapped : Option (List ℕ) → EcResult (List ℕ)
      unwrapped none = panic
      unwrapped (some buffer) = ok buffer

  unfoldable pub send_command : ℕ → ℕ → List ℕ → Io (List ℕ)
  send_command command command_version payload =
      init ≫= (λ _. pure (make_command command command_version payload)) ≫= λ cmd.
      on_device λ s. let (answer, s1) = K.cros_ec_cmd cmd s in (decode_answer answer, s1)

  -- `ReadMemMap`, with the parameters on a byte each.
  unfoldable pub read_mem_via_cmd : ℕ → ℕ → Io (List ℕ)
  read_mem_via_cmd offset size = init ≫= λ _.
      send_command (command_code read_mem_map) 0 ((offset % 2 ^ 8) ∷ (size % 2 ^ 8) ∷ [])

  unfoldable pub read_memory : ℕ → ℕ → Io (List ℕ)
  read_memory offset size =
      if read_directly then read_mem_directly offset size else read_mem_via_cmd offset size

  abbrev pub cros_ec_backend : Backend Session
  cros_ec_backend = record { read = read_memory; send = send_command }
