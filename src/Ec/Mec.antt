-- ===== src/Ec/Mec.antt =====
-- chromium_ec/portio_mec.rs: reading and writing the memory of an EC with a MEC, and
-- chromium_ec/portio.rs: `read_memory`.
pub mod Masks
pub mod Spans
pub mod Reading
pub mod Writing
use framework_system.Base.{
  ℕ, zero, suc, ◌+◌, ◌-◌, ◌/◌, ◌%◌, ◌^◌, min, bit_and, bit_or, List, [], ◌∷◌, ◌++◌, length, take,
  drop, Bool, ltb, if◌then◌else◌, ok, err, panic, ◌>>=◌,
}
use framework_system.Base.Calls.{Call, pure, ◌≫=◌}
use framework_system.Bytes.{to_le, from_le}
use framework_system.Ec.Status.{EcError, device_error}
use framework_system.Ec.Port.{Port, transfer_read as read_ports}
use framework_system.Ec.Select.{add_u16}

-- The ports, with accesses of 16 bits beside those of 8.
pub record MecPort : Type 1 where
  pub bytes : Port
  pub read_u16 : ℕ → bytes.State → ℕ × bytes.State
  pub write_u16 : ℕ → ℕ → bytes.State → bytes.State

abbrev pub byte_access : ℕ
byte_access = 0x00

abbrev pub long_access_autoincrement : ℕ
long_access_autoincrement = 0x03

abbrev pub address_register0 : ℕ
address_register0 = 0x0802

abbrev pub data_register0 : ℕ
data_register0 = 0x0804

abbrev pub data_register2 : ℕ
data_register2 = 0x0806

abbrev pub mec_memmap_offset : ℕ
mec_memmap_offset = 0x100

abbrev pub npc_memmap_offset : ℕ
npc_memmap_offset = 0xE00

-- `aligned` says whether the buffer lies at an even address, and `debug` whether the build has
-- overflow checks.
module _ (P : MecPort) (aligned debug : Bool) where
  abbrev Mec : Type 0 → Type 0
  Mec A = Call P.bytes.State EcError A

  abbrev input : (P.bytes.State → ℕ × P.bytes.State) → Mec ℕ
  input read s = (ok (read s).0, (read s).1)

  abbrev effect : (P.bytes.State → P.bytes.State) → Mec (Unit {0})
  effect f s = (ok tt, f s)

  unfoldable pub select : ℕ → ℕ → Mec (Unit {0})
  select access offset =
      effect (P.write_u16 address_register0 (bit_or (bit_and offset 0xFFFC) access))

  -- The address of the next aligned word.
  unfoldable pub next_word : ℕ → Mec ℕ
  next_word offset = pure (add_u16 debug offset 4 >>= λ next. ok (bit_and next 0xFFFC))

  -- Up to the alignment, all bytes are written to the first data register.
  unfoldable pub write_start_bytes : ℕ → List ℕ → Mec (List ℕ)
  write_start_bytes zero buffer = pure (ok buffer)
  write_start_bytes (suc n) [] = pure panic
  write_start_bytes (suc n) (byte ∷ buffer) =
      effect (P.bytes.write data_register0 byte) ≫= λ _. write_start_bytes n buffer

  -- What is left of the buffer, and the address that it goes to.
  unfoldable pub write_start : ℕ → List ℕ → Mec (List ℕ × ℕ)
  write_start offset buffer =
      if ltb 0 (offset % 4)
      then (select byte_access offset ≫= (λ _. write_start_bytes (4 - offset % 4) buffer) ≫= λ rest.
          next_word offset ≫= λ next. pure (ok (rest, next)))
      else pure (ok (buffer, offset))

  unfoldable pub write_longs : ℕ → List ℕ → ℕ → Mec (List ℕ × ℕ)
  write_longs zero buffer offset = pure (ok (buffer, offset))
  write_longs (suc left) buffer offset =
      pure (if aligned then ok tt else panic)
      ≫= (λ _. effect (P.write_u16 data_register0 (from_le (take 2 buffer))))
      ≫= (λ _. effect (P.write_u16 data_register2 (from_le (take 2 (drop 2 buffer)))))
      ≫= (λ _. pure (add_u16 debug offset 4))
      ≫= write_longs left (drop 4 buffer)

  unfoldable pub write_end : ℕ → List ℕ → Mec (Unit {0})
  write_end byte [] = pure (ok tt)
  write_end byte (x ∷ xs) =
      effect (P.bytes.write (data_register0 + byte) x) ≫= λ _. write_end (byte + 1) xs

  -- The loop over the longs, if there is one, and the bytes at the end.
  unfoldable pub write_middle : List ℕ → ℕ → Mec (List ℕ × ℕ)
  write_middle buffer offset =
      if ltb 3 (length buffer)
      then (select long_access_autoincrement offset ≫= λ _.
          write_longs (length buffer / 4) buffer offset)
      else pure (ok (buffer, offset))

  unfoldable pub write_last : List ℕ → ℕ → Mec (Unit {0})
  write_last buffer offset =
      if ltb 0 (length buffer)
      then (select byte_access offset ≫= λ _. write_end 0 buffer)
      else pure (ok tt)

  -- The address is 0 at the start.
  unfoldable pub transfer_write : List ℕ → Mec (Unit {0})
  transfer_write buffer =
      pure (if ltb (length buffer) (2 ^ 16) then ok 0 else panic)
      ≫= (λ offset. write_start offset buffer)
      ≫= (λ start. write_middle start.0 start.1)
      ≫= λ middle. write_last middle.0 middle.1

  unfoldable pub read_bytes : ℕ → ℕ → Mec (List ℕ)
  read_bytes byte zero = pure (ok [])
  read_bytes byte (suc left) = input (P.bytes.read (data_register0 + byte)) ≫= λ x.
      read_bytes (byte + 1) left ≫= λ xs. pure (ok (x ∷ xs))

  -- The bytes before the alignment, and the address behind them.
  unfoldable pub read_start : ℕ → ℕ → Mec (List ℕ × ℕ)
  read_start offset size =
      if ltb 0 (offset % 4)
      then (select byte_access offset
          ≫= (λ _. read_bytes (offset % 4) (min 4 size - offset % 4))
          ≫= λ xs. next_word offset ≫= λ next. pure (ok (xs, next)))
      else pure (ok ([], offset))

  unfoldable pub read_longs : ℕ → ℕ → Mec (List ℕ × ℕ)
  read_longs zero offset = pure (ok ([], offset))
  read_longs (suc left) offset = input (P.read_u16 data_register0) ≫= λ low.
      input (P.read_u16 data_register2) ≫= λ high. pure (add_u16 debug offset 4) ≫= λ next.
      read_longs left next ≫= λ r. pure (ok (to_le 2 low ++ to_le 2 high ++ r.0, r.1))

  -- The loop over the longs, if there is one, and the bytes at the end.
  unfoldable pub read_middle : ℕ → ℕ → Mec (List ℕ × ℕ)
  read_middle offset left =
      if ltb 3 left
      then (select long_access_autoincrement offset ≫= λ _. read_longs (left / 4) offset)
      else pure (ok ([], offset))

  unfoldable pub read_end : ℕ → ℕ → Mec (List ℕ)
  read_end offset left =
      if ltb 0 left then (select byte_access offset ≫= λ _. read_bytes 0 left) else pure (ok [])

  unfoldable pub transfer_read : ℕ → ℕ → Mec (List ℕ)
  transfer_read address size = read_start address size ≫= λ start.
      read_middle start.1 (size - length start.0) ≫= λ middle.
      read_end middle.1 (size - length start.0 - length middle.0) ≫= λ last.
      pure (ok (start.0 ++ (middle.0 ++ last)))

  -- chromium_ec/portio.rs, with the answers of `init` and `has_mec`.
  unfoldable pub read_memory : Bool → Bool → ℕ → ℕ → Mec (List ℕ)
  read_memory initialized has_mec offset size =
      if initialized
      then if has_mec
        then (pure (add_u16 debug mec_memmap_offset offset) ≫= λ address.
            transfer_read address size)
        else port_read
      else pure (err (device_error "Failed to initialize" []))
    where
      port_read : Mec (List ℕ)
      port_read s = let (xs, s1) = read_ports P.bytes npc_memmap_offset offset size s in (ok xs, s1)
