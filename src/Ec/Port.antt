-- ===== src/Ec/Port.antt =====
-- chromium_ec/portio.rs: sending a command through the I/O ports, on a board without a MEC.
pub mod Answers
pub mod Guards
use framework_system.Base.{
  ℕ, zero, suc, ◌+◌, ◌^◌, bit_and, List, [], ◌∷◌, length, Bool, true, not, ◌||◌, ltb, ◌==◌,
  if◌then◌else◌, Option, none, some, Result, ok, err, panic, assert, ◌>>=◌, ◌>>◌,
}
use framework_system.Bytes.{field}
use framework_system.Ec.Status.{
  EcResponseStatus, success, invalid_command, error, invalid_parameter, access_denied,
  invalid_response, invalid_version, invalid_checksum, in_progress, unavailable, timeout, overflow,
  invalid_header, request_truncated, response_too_big, bus_error, busy, EcResult, response,
  unknown_response_code, device_error,
}
use framework_system.Ec.Packet.{
  EcHostRequest, pack_request, checksum_buffers, ec_host_request_version, ec_lpc_host_packet_size,
}

-- The ports (the hwio crate): a read may change what is behind them.
pub record Port : Type 1 where
  pub State : Type 0
  pub read : ℕ → State → ℕ × State
  pub write : ℕ → ℕ → State → State

abbrev pub host_data : ℕ
host_data = 0x200

abbrev pub host_cmd : ℕ
host_cmd = 0x204

abbrev pub host_args : ℕ
host_args = 0x800

abbrev pub command_protocol_3 : ℕ
command_protocol_3 = 0xda

-- The host's bytes are not consumed yet, or a command is being processed.
abbrev pub status_busy_mask : ℕ
status_busy_mask = 0x06

abbrev pub ec_host_response_version : ℕ
ec_host_response_version = 3

-- The packed response header of 8 bytes.
pub record EcHostResponse : Type 0 where
  pub struct_version : ℕ
  pub checksum : ℕ
  pub result : ℕ
  pub data_len : ℕ
  pub reserved : ℕ

abbrev pub response_len : ℕ
response_len = 8

unfoldable pub unpack_response_header : List ℕ → EcHostResponse
unfolding field
unpack_response_header bytes = record {
  struct_version = field bytes 0 1;
  checksum = field bytes 1 1;
  result = field bytes 2 2;
  data_len = field bytes 4 2;
  reserved = field bytes 6 2;
}

-- `EcResponseStatus::from_u8` and `from_u16`
unfoldable pub status_from : ℕ → Option EcResponseStatus
status_from code =
    if code == 0
    then some success
    else if code == 1
    then some invalid_command
    else if code == 2
    then some error
    else if code == 3
    then some invalid_parameter
    else if code == 4
    then some access_denied
    else if code == 5
    then some invalid_response
    else if code == 6
    then some invalid_version
    else if code == 7
    then some invalid_checksum
    else if code == 8
    then some in_progress
    else if code == 9
    then some unavailable
    else if code == 10
    then some timeout
    else if code == 11
    then some overflow
    else if code == 12
    then some invalid_header
    else if code == 13
    then some request_truncated
    else if code == 14
    then some response_too_big
    else if code == 15
    then some bus_error
    else if code == 16
    then some busy
    else none

-- The byte of the data port after a command.
unfoldable pub check_status : ℕ → EcResult (Unit {0})
unfolding status_from
check_status res = elim (status_from res) [
  | none ↦ err (unknown_response_code res)
  | some success ↦ ok tt
  | some status ↦ err (response status)
]

-- The guards on the response header, in the order of the code.
unfoldable pub check_header : EcHostResponse → EcResult (Unit {0})
check_header h =
    assert (h.result == 0)
    >> (if not (h.struct_version == ec_host_response_version)
        then err (
            device_error "Struct version invalid. Should be {:#X}, is {:#X}"
              (ec_host_response_version ∷ h.struct_version ∷ []))
        else if not (h.reserved == 0)
        then err (device_error "Reserved invalid. Should be 0, is {:#X}" (h.reserved ∷ []))
        else if ltb ec_lpc_host_packet_size h.data_len
        then err (device_error "Packet size too big" [])
        else ok tt)

-- `debug_assert!`, in a build with or without debug assertions.
abbrev pub debug_assert : Bool → Bool → EcResult (Unit {0})
debug_assert debug test = assert (not debug || test)

module _ (P : Port) where
  -- `i` counts the bytes that are written.
  unfoldable pub transfer_write : ℕ → List ℕ → P.State → P.State
  transfer_write i [] s = s
  transfer_write i (byte ∷ bytes) s = transfer_write (i + 1) bytes (P.write (host_args + i) byte s)

  -- From a port and an address behind it. The sum has 16 bits in the code: it is not cut here, since
  -- all calls stay far below 2^16.
  unfoldable pub transfer_read : ℕ → ℕ → ℕ → P.State → List ℕ × P.State
  transfer_read port address zero s = ([], s)
  transfer_read port address (suc size) s =
      let (byte, s1) = P.read (port + address) s in
      let (bytes, s2) = transfer_read port (address + 1) size s1 in (byte ∷ bytes, s2)

  -- The fuel bounds how often the EC is asked; `none` is an EC that was always busy.
  unfoldable pub wait_for_ready : ℕ → P.State → Option P.State
  wait_for_ready zero s = none
  wait_for_ready (suc fuel) s =
      let (status, s1) = P.read host_cmd s in
      let later = wait_for_ready fuel s1 in
      if bit_and status status_busy_mask == 0 then some s1 else later

  -- A check in the middle of the calls.
  abbrev pub checked :
      {A : Type 0}
      → EcResult A
      → P.State
      → (A → P.State → EcResult (List ℕ) × P.State)
      → EcResult (List ℕ) × P.State
  checked (ok a) s next = next a s
  checked (err e) s next = (err e, s)
  checked panic s next = (panic, s)

  -- What follows the header of a response.
  unfoldable pub read_body : Bool → List ℕ → ℕ → P.State → EcResult (List ℕ) × P.State
  read_body debug header data_len s =
      let (bytes, s1) = transfer_read host_args response_len data_len s in
      if ltb 0 data_len
      then checked (debug_assert debug (checksum_buffers (header ∷ bytes ∷ []) == 0)) s1
          (λ _ s2. (ok bytes, s2))
      else (ok [], s)

  -- The half of `send_command` behind the second wait.
  unfoldable pub receive : Bool → P.State → EcResult (List ℕ) × P.State
  receive debug s =
      let (res, s1) = P.read host_data s in
      checked (check_status res) s1 λ _ s2.
        let (header, s3) = transfer_read host_args 0 response_len s2 in
        let h = unpack_response_header header in
        checked (check_header h) s3 λ _ s4. read_body debug header h.data_len s4

  abbrev pub request_for : ℕ → ℕ → List ℕ → EcHostRequest
  request_for command command_version payload = record {
    struct_version = ec_host_request_version;
    checksum = 0;
    command = command;
    command_version = command_version;
    reserved = 0;
    data_len = length payload;
  }

  -- The packet; the length must fit into 16 bits.
  unfoldable pub request_packet : ℕ → ℕ → List ℕ → EcResult (List ℕ)
  request_packet command command_version payload =
      assert (ltb (length payload) (2 ^ 16))
      >> pack_request (request_for command command_version payload) payload

  -- Writes the packet and its command byte once the EC is ready.
  unfoldable pub transmit : ℕ → List ℕ → P.State → Option P.State
  transmit fuel packet s = elim (wait_for_ready fuel s) [
    | none ↦ none
    | some s1 ↦
        wait_for_ready fuel (P.write host_cmd command_protocol_3 (transfer_write 0 packet s1))
  ]

  unfoldable pub send_command :
      Bool → ℕ → ℕ → ℕ → List ℕ → P.State → Option (EcResult (List ℕ) × P.State)
  send_command debug fuel command command_version payload s =
      elim (request_packet command command_version payload) [
        | err e ↦ some (err e, s)
        | panic ↦ some (panic, s)
        | ok packet ↦ elim (transmit fuel packet s) [
          | none ↦ none
          | some s1 ↦ some (receive debug s1)
        ]
      ]
