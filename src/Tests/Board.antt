-- ===== src/Tests/Board.antt =====
-- The driver for the ports of Linux, with and without a MEC, over ports that show one response.
use framework_system.Base.{
  ℕ, ◌<◌, List, [], ◌∷◌, length, Bool, true, false, Option, none, some, ok, get_or, ◌==◌,
  if◌then◌else◌, ap, slice, ◌≡◌, refl, arith,
}
use framework_system.Ec.Status.{EcResult}
use framework_system.Ec.Port
use framework_system.Ec.Mec
use framework_system.Bytes.{field, to_le}
use framework_system.Ec.Packet.{pack_request, checksum_buffers}
use framework_system.Ec.Port.{check_status, check_header, unpack_response_header, request_packet}
use framework_system.Ec.Mec.Reading.{Memory}
use framework_system.Ec.Board.{
  Host, Initialized, not_yet, succeeded, send_command, read_memory, receive, init, linux_init,
  request_access, open_ports, wait_for_ready, exchange, transfer_read, transfer_write, read_body,
}
use framework_system.Ec.Board.Plain.{initialized, send_command-plain}
use framework_system.Ec.Board.Permissions.{Ports, IsSound}
use framework_system.Ec.Board.Reach.{
  reads, sends, here, next, plain_read, plain_send, IsFull, Reach-IsSound,
}
use framework_system.Ec.Board.Answers.{IsResponse, board, receive-IsResponse}
use framework_system.Tests.Mec.{memory}
use framework_system.Tests.Port as Shown

-- Root may use all ports.
abbrev root_host : Host
root_host = record {
  ports = record {
    bytes = Shown.board 0;
    read_u16 = λ port s. (0, s);
    write_u16 = λ port word s. s;
  };
  is_root = λ s. true;
  ioperm = λ from num s. (0, s);
}

plain_send_same :
    send_command root_host true (ok false) true false 1 0x07 1 (0 ∷ []) (succeeded, tt)
    ≡ initialized root_host true true false
        (Port.send_command (Shown.board 0) false 1 0x07 1 (0 ∷ []) tt)
plain_send_same = send_command-plain root_host true true false 1 0x07 1 (0 ∷ []) tt

abbrev fresh : Ports root_host
fresh = record { inner = tt; granted = λ port. false; clean = true }

-- The states behind a read of the memory map, and behind a command after it.
abbrev after_read : Initialized × Ports root_host
after_read = (plain_read root_host true 0 4 (not_yet, fresh)).1

abbrev state_of :
    Option (EcResult (List ℕ) × (Initialized × Ports root_host)) → Initialized × Ports root_host
state_of none = (not_yet, fresh)
state_of (some x) = x.1

abbrev after_command : Initialized × Ports root_host
after_command = state_of (plain_send root_host true 1 0x07 1 (0 ∷ []) after_read)

answered :
    plain_send root_host true 1 0x07 1 (0 ∷ []) after_read
    ≡ some (ok (0x64 ∷ 0x01 ∷ []), after_command)
unfolding send_command init linux_init request_access open_ports wait_for_ready exchange receive
    transfer_read transfer_write read_body read_memory check_status check_header
    unpack_response_header pack_request request_packet field slice to_le checksum_buffers
    Port.wait_for_ready Port.transfer_read Port.transfer_write Mec.read_memory
answered = refl

short : ¬ IsFull root_host true (ok (0x64 ∷ 0x01 ∷ []))
short (bytes, e, size) =
    let same : 0x64 ∷ 0x01 ∷ [] ≡ bytes = cc in absurd (omega (arith, ap length same, size))

Reach-IsSound_example : IsSound root_host after_command
Reach-IsSound_example =
    Reach-IsSound root_host true fresh refl
      (next (next here (reads 0 4 (omega arith) refl)) (sends 1 0x07 1 (0 ∷ []) _ answered short))

-- A response with 256 bytes of data.
abbrev full_byte : ℕ → ℕ
full_byte port = if port == 0x800 then 3 else if port == 0x805 then 1 else 0

abbrev full_host : Host
full_host = record root_host {
  ports = record root_host.ports {
    bytes = record {
      State = Unit {0};
      read = λ port s. (full_byte port, s);
      write = λ port byte s. s;
    };
  };
}

abbrev clean_of : Option (EcResult (List ℕ) × (Initialized × Ports full_host)) → Bool
clean_of none = true
clean_of (some x) = x.1.1.clean

-- Its last byte is read from port 0x907, which `init` has not asked for.
full_leaves_window :
    clean_of (
      plain_send full_host true 1 0x07 1 []
        (not_yet, record { inner = tt; granted = λ port. false; clean = true }))
    ≡ false
unfolding send_command init linux_init request_access open_ports wait_for_ready exchange receive
    transfer_read transfer_write read_body read_memory check_status check_header
    unpack_response_header pack_request request_packet field slice to_le checksum_buffers
    Port.wait_for_ready Port.transfer_read Port.transfer_write Mec.read_memory
full_leaves_window = refl

-- The memory of a MEC with a response.
shown_byte : (i : ℕ) → get_or Shown.window i 0 < 256
shown_byte i = ground arith

abbrev with_response : Memory
with_response = memory (λ a. get_or Shown.window a 0) shown_byte

response : IsResponse with_response 2
response = record {
  version = unfold field in refl;
  result = unfold field in refl;
  data_len = unfold field in refl;
  reserved = unfold field in refl;
  fits = omega arith;
  sums_to_zero = unfold checksum_buffers in refl;
}

receive-IsResponse_example :
    (receive (board with_response (λ s. true) (λ from num s. (0, s))) true (ok true) true true 0).0
    ≡ ok (0x64 ∷ 0x01 ∷ [])
receive-IsResponse_example =
    receive-IsResponse with_response (λ s. true) (λ from num s. (0, s)) true true true 2 0 refl
      response
