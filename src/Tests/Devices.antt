-- ===== src/Tests/Devices.antt =====
-- A shell with one file, an audio card that answers the third request, and a table of zeros.
use framework_system.Base.{
  ℕ, zero, suc, ◌-◌, ◌^◌, List, [], ◌∷◌, ◌++◌, length, replicate, drop, true, ◌==◌, if◌then◌else◌,
  ◌≡◌, ◌≢◌, refl, Option, none, some, ok, err, panic, arith, All,
}
use framework_system.Base.Calls.{◌≫=◌}
use framework_system.Bytes.{field, from_le, to_le}
use framework_system.Uefi.{
  Firmware, Smbios, shell_read_file, shell_write_file, sum_u8, single_bytes, checksum_valid,
}
use framework_system.Uefi.Files.{Shell, old_bytes, shell_read_file-shell_write_file}
use framework_system.Uefi.Checksum.{checksum_valid-zeros}
use framework_system.Audio.{Usb, cape_request, cape_message, poll}
use framework_system.Audio.Answers.{Card, poll-ready}

-- Every name is that of the one file.
abbrev one_file : Firmware
one_file = record {
  State = Option (List ℕ);
  Handle = Unit {0};
  find_shell = λ s. ok (2, 2);
  open_file_by_name = λ name flags s. (
    if flags == 1 then elim s [ none ↦ err tt | some bytes ↦ ok (some tt) ] else ok (some tt),
    s,
  );
  get_file_size = λ h s. (elim s [ none ↦ err tt | some bytes ↦ ok (length bytes) ], s);
  read_file = λ h buffer s. (elim s [ none ↦ err tt | some bytes ↦ ok bytes ], s);
  write_file = λ h bytes s. (ok tt, some (bytes ++ drop (length bytes) (old_bytes s)));
  close_file = λ h s. (ok tt, s);
}

abbrev files : Shell
files = record {
  firmware = one_file;
  mode = record { read = 1; write = 2; create = 2 ^ 63 };
  contents = λ s name. s;
  handle = λ name. tt;
  opened = λ name s. s;
  stored = λ name bytes s. some (bytes ++ drop (length bytes) (old_bytes s));
  finds = λ s. refl;
  opens = λ s name bytes there. rw there refl;
  misses = λ s name missing. rw missing refl;
  makes = λ s name. refl;
  sizes = λ s name bytes there. rw there refl;
  fills = λ s name bytes buffer there size. rw there refl;
  writes = λ s name bytes. refl;
  closes = λ s name. refl;
  keeps = λ s name bytes. refl;
}

abbrev path : List ℕ
path = b'a' ∷ []

-- Two bytes over a file of three.
shell_read_file-shell_write_file_example :
    (shell_write_file one_file files.mode true path (1 ∷ 2 ∷ []) ≫= λ _.
    shell_read_file one_file files.mode true path)
      (some (7 ∷ 8 ∷ 9 ∷ []))
    ≡ (ok (1 ∷ 2 ∷ 9 ∷ []), some (1 ∷ 2 ∷ 9 ∷ []))
shell_read_file-shell_write_file_example =
    shell_read_file-shell_write_file files true path (1 ∷ 2 ∷ []) (some (7 ∷ 8 ∷ 9 ∷ []))

abbrev zeros : Smbios
zeros = record {
  anchor = replicate 4 0;
  checksum = 0;
  length = 0;
  major_version = 0;
  minor_version = 0;
  max_structure_size = 0x100;
  revision = 0;
  formatted = replicate 5 0;
}

zeros_valid : checksum_valid true zeros ≡ ok true
unfolding checksum_valid sum_u8
zeros_valid = refl

checksum_valid-zeros_example :
    All (λ b. b ≡ 0) zeros.anchor
    × All (λ b. b ≡ 0) (single_bytes zeros)
    × All (λ b. b ≡ 0) zeros.formatted
checksum_valid-zeros_example = checksum_valid-zeros zeros zeros_valid

-- The state counts the further requests.
abbrev ready_message : List ℕ
unfolding to_le
ready_message = cape_message 0x8103 (replicate 52 1)

abbrev reply : ℕ → List ℕ
unfolding cape_request
reply zero = ready_message
reply (suc n) = cape_request

abbrev cards : Usb
cards = record {
  State = ℕ;
  Device = Unit {0};
  devices = ok (tt ∷ []);
  vendor_id = λ device. 0x32AC;
  product_id = λ device. 0x10;
  interfaces = λ device. (3, 0x03 ∷ []) ∷ [];
  open_device = λ device s. (ok tt, s);
  claim = λ device index s. (ok tt, s);
  write_control = λ device request value index bytes s.
      (if request == 0x09 then ok (length bytes) else panic, s);
  read_control = λ device request value index buffer s.
      ((if value == 0x0101 then ok 62 else panic, reply s), s - 1);
}

is_ready : field ready_message 4 2 ≡ 0x8103
unfolding field from_le ready_message
is_ready = refl

request_command : field cape_request 4 2 ≡ 0x0103
unfolding field from_le cape_request to_le
request_command = refl

is_busy : field cape_request 4 2 ≢ 0x8103
is_busy e = omega (arith, request_command, e)

answers :
    (s : ℕ) (buffer : List ℕ)
    → s ≡ 0
    → cards.read_control tt 0x01 0x0101 3 buffer s ≡ ((ok 62, ready_message), s - 1)
unfolding ready_message reply
answers s buffer waits = rw waits refl

delays :
    (s : ℕ) (buffer : List ℕ) (n : ℕ)
    → s ≡ suc n
    → cards.read_control tt 0x01 0x0101 3 buffer s ≡ ((ok 62, cape_request), s - 1)
unfolding cape_request reply
delays s buffer n waits = rw waits refl

abbrev card : Card
card = record {
  usb = cards;
  device = tt;
  index = 3;
  pending = λ s. s;
  ready = ready_message;
  size = 62;
  busy = λ s. cape_request;
  written = λ s. s;
  next = λ s. s - 1;
  is_ready = is_ready;
  is_busy = λ s. is_busy;
  accepts = λ s. refl;
  answers = λ s buffer waits. answers s buffer waits;
  delays = λ s buffer n waits. delays s buffer n waits;
  counts = λ s n waits. omega arith;
}

poll-ready_example : poll cards 3 tt 3 cape_request 2 ≡ some (ok ready_message, 0)
poll-ready_example = poll-ready card 2 3 cape_request 2 is_busy refl (omega arith)
