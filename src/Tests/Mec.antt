-- ===== src/Tests/Mec.antt =====
-- An EC with a MEC; in the tests its memory holds the low byte of each address.
use framework_system.Base.{
  ℕ, ◌+◌, ◌-◌, ◌*◌, ◌/◌, ◌%◌, ◌<◌, List, [], ◌∷◌, ◌==◌, leb, le→leb, true, if◌then◌else◌, ok, ◌≡◌,
  refl, inr, arith, ap, ap₂, ◌++◌,
}
use framework_system.Bytes.{to_le}
use framework_system.Ec.Mec.{MecPort, transfer_read, transfer_write}
use framework_system.Ec.Mec.Reading.{Memory, transfer_read-span, transfer_read_skips}
use framework_system.Ec.Mec.Writing.{Sink, transfer_write-written}

abbrev byte_at : ℕ → ℕ
byte_at a = a % 256

-- An EC with a memory. The state is the address register, and the other ports show 0.
abbrev pub board : (ℕ → ℕ) → MecPort
board at = record {
  bytes = record {
    State = ℕ;
    read = λ port register.
        (if leb 0x804 port then at (4 * (register / 4) + (port - 0x804)) else 0, register);
    write = λ port byte register. register;
  };
  read_u16 = λ port register.
      if port == 0x804
      then (at (4 * (register / 4)) + 256 * at (4 * (register / 4) + 1), register)
      else (at (4 * (register / 4) + 2) + 256 * at (4 * (register / 4) + 3), register + 4);
  write_u16 = λ port word register. if port == 0x802 then word else register;
}

pub both_bytes : (x y : ℕ) → x < 256 → y < 256 → to_le 2 (x + 256 * y) ≡ x ∷ y ∷ []
unfolding to_le
both_bytes x y h k = ap₂ (λ a b. a ∷ b ∷ []) (omega arith) (omega arith)

abbrev pub memory : (at : ℕ → ℕ) → ((a : ℕ) → at a < 256) → Memory
memory at small = record {
  port = board at;
  at = at;
  ByteAt = λ word register. register ≡ 4 * word;
  LongAt = λ word register. register ≡ 4 * word + 3;
  selects_byte = λ word s. refl;
  selects_long = λ word s. refl;
  reads_byte = λ word i s h e. (
    (let there : 0x804 + i - 0x804 ≡ i = omega arith in
        rw (le→leb 0x804 (0x804 + i) (omega arith), there) (ap (λ a. at (a + i)) (omega arith))),
    e,
  );
  reads_low = λ word s e. (
    (let here : 4 * (s / 4) ≡ 4 * word = omega arith in
        rw here (
          both_bytes (at (4 * word)) (at (4 * word + 1)) (small (4 * word))
            (small (4 * word + 1)))),
    e,
  );
  reads_high = λ word s e. (
    (let here : 4 * (s / 4) ≡ 4 * word = omega arith in
        rw here (
          both_bytes (at (4 * word + 2)) (at (4 * word + 3)) (small (4 * word + 2))
            (small (4 * word + 3)))),
    omega arith,
  );
}

abbrev low_bytes : Memory
low_bytes = memory byte_at (λ a. omega arith)

transfer_read-span_example :
    (transfer_read (board byte_at) true true 0x102 6 0).0 ≡ ok (2 ∷ 3 ∷ 4 ∷ 5 ∷ 6 ∷ 7 ∷ [])
transfer_read-span_example =
    transfer_read-span low_bytes true true 0x102 6 0 (inr (omega arith)) (omega arith)

-- The battery count, at 0x4D of the memory map, is read as the byte at 0x50.
transfer_read_skips_example : (transfer_read (board byte_at) true true 0x14D 1 0).0 ≡ ok (0x50 ∷ [])
transfer_read_skips_example =
    transfer_read_skips low_bytes true true 0x14D 1 0 (omega arith) (omega arith) (omega arith)

-- The state is the address register and what was written so far.
abbrev log_board : MecPort
log_board = record {
  bytes = record {
    State = ℕ × List ℕ;
    read = λ port s. (0, s);
    write = λ port byte s. (s.0, s.1 ++ (byte ∷ []));
  };
  read_u16 = λ port s. (0, s);
  write_u16 = λ port word s.
      if port == 0x802
      then (word, s.1)
      else if port == 0x804
      then (s.0, s.1 ++ to_le 2 word)
      else (s.0 + 4, s.1 ++ to_le 2 word);
}

abbrev sink : Sink
sink = record {
  port = log_board;
  written = λ s. s.1;
  ByteAt = λ word s. s.0 ≡ 4 * word;
  LongAt = λ word s. s.0 ≡ 4 * word + 3;
  selects_byte = λ word s. (refl, refl);
  selects_long = λ word s. (refl, refl);
  writes_byte = λ word i x s h here sent. (here, refl);
  writes_low = λ word x s here sent. (here, refl);
  writes_high = λ word x s here sent. (omega arith, refl);
}

transfer_write-written_example :
    ((transfer_write log_board true true (3 ∷ 1 ∷ 4 ∷ 1 ∷ 5 ∷ 9 ∷ []) (0, [])).0 ≡ ok tt)
    × ((transfer_write log_board true true (3 ∷ 1 ∷ 4 ∷ 1 ∷ 5 ∷ 9 ∷ []) (0, [])).1.1
        ≡ 3 ∷ 1 ∷ 4 ∷ 1 ∷ 5 ∷ 9 ∷ [])
transfer_write-written_example =
    transfer_write-written sink true (3 ∷ 1 ∷ 4 ∷ 1 ∷ 5 ∷ 9 ∷ []) (0, []) refl (omega arith)
      (ground arith)
