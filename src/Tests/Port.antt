-- ===== src/Tests/Port.antt =====
-- Ports that show one response, whatever is written to them.
use framework_system.Base.{
  List, [], ◌∷◌, ℕ, ◌+◌, ◌-◌, ◌≤◌, ◌<◌, ◌≡◌, refl, ok, get_or, ◌==◌, leb, le→leb, if◌then◌else◌,
  some, true, arith, slice,
}
use framework_system.Bytes.{field, to_le}
use framework_system.Ec.Packet.{pack_request, checksum_buffers}
use framework_system.Ec.Port.{
  Port, host_data, host_args, request_packet, receive, send_command, transfer_read, check_status,
  check_header, unpack_response_header, read_body,
}
use framework_system.Ec.Port.Answers.{IsAnswer, send_command-IsAnswer}
use framework_system.Ec.Port.Guards.{header_of, receive-ok}

-- A header of version 3 for two bytes of data, and the data.
abbrev pub window : List ℕ
window = 3 ∷ 0x96 ∷ 0 ∷ 0 ∷ 2 ∷ 0 ∷ 0 ∷ 0 ∷ 0x64 ∷ 0x01 ∷ []

abbrev show : ℕ → ℕ → ℕ
show code address =
    if leb 0x800 address
    then get_or window (address - 0x800) 0
    else if address == 0x200
    then code
    else 0

-- The status of the data port is `code`.
abbrev pub board : ℕ → Port
board code = record {
  State = Unit {0};
  read = λ address s. (show code address, s);
  write = λ address byte s. s;
}

shows : (i : ℕ) → i < 10 → (board 0).read (host_args + i) tt ≡ (get_or window i 0, tt)
shows i h =
    let there : 0x800 + i - 0x800 ≡ i = omega arith in
    rw (le→leb 0x800 (0x800 + i) (omega arith), there) refl

answer : IsAnswer (board 0) tt window 2
answer = record {
  succeeds = refl;
  shows = shows;
  complete = omega arith;
  version = unfold field in refl;
  result = unfold field in refl;
  data_len = unfold field in refl;
  reserved = unfold field in refl;
  fits = omega arith;
  sums_to_zero = unfold checksum_buffers in refl;
}

abbrev pub packet : List ℕ
packet = 3 ∷ 0xF4 ∷ 0x07 ∷ 0 ∷ 1 ∷ 0 ∷ 1 ∷ 0 ∷ 0 ∷ []

made : request_packet (board 0) 0x07 1 (0 ∷ []) ≡ ok packet
unfolding request_packet pack_request
made = unfold to_le slice in refl

send_command-IsAnswer_example :
    send_command (board 0) true 1 0x07 1 (0 ∷ []) tt ≡ some (ok (0x64 ∷ 0x01 ∷ []), tt)
send_command-IsAnswer_example =
    send_command-IsAnswer (board 0) true 1 0x07 1 (0 ∷ []) packet tt 0 0 2 window made refl
      (omega arith) refl (omega arith) answer

received : (receive (board 0) true tt).0 ≡ ok (0x64 ∷ 0x01 ∷ [])
unfolding receive check_status check_header unpack_response_header transfer_read read_body
    checksum_buffers
received = refl

receive-ok_example :
    (((board 0).read host_data tt).0 ≡ 0)
    × (field (header_of (board 0) tt) 0 1 ≡ 3)
    × (field (header_of (board 0) tt) 6 2 ≡ 0)
    × (2 ≡ field (header_of (board 0) tt) 4 2)
    × (2 ≤ 0x100)
receive-ok_example = receive-ok (board 0) true tt (0x64 ∷ 0x01 ∷ []) received
