-- ===== src/Ec/Board/Answers.antt =====
-- chromium_ec/portio.rs on a board with a MEC: what a response in the memory of the EC gives.
use framework_system.Base.{
  ℕ, ◌+◌, ◌≤◌, [], ◌∷◌, Bool, true, false, ok, ◌≡◌, refl, inl, arith, lt→ltb, le→not_ltb, ◌%◌, ◌^◌,
  ◌<◌, zero, suc,
}
use framework_system.Bytes.{field}
use framework_system.Ec.Packet.{checksum_buffers}
use framework_system.Ec.Port.{
  host_data, host_args, debug_assert, unpack_response_header, check_status, check_header,
}
use framework_system.Ec.Mec.Reading.{Memory, transfer_read-span}
use framework_system.Ec.Mec.Spans.{span}
use framework_system.Ec.Board.{Host, transfer_read, read_body, receive}

asserted : (debug : Bool) → debug_assert debug true ≡ ok tt
asserted true = refl
asserted false = refl

module _ (M : Memory) where
  -- A response in the memory that reports success, with `n` bytes of data behind the header.
  pub record IsResponse (n : ℕ) : Type 0 where
    pub version : field (span M.at 0 8) 0 1 ≡ 3
    pub result : field (span M.at 0 8) 2 2 ≡ 0
    pub data_len : field (span M.at 0 8) 4 2 ≡ n
    pub reserved : field (span M.at 0 8) 6 2 ≡ 0
    pub fits : n ≤ 0x100
    pub sums_to_zero : checksum_buffers (span M.at 0 8 ∷ span M.at 8 n ∷ []) ≡ 0

  module _ (is_root : M.port.bytes.State → Bool)
      (ioperm : ℕ → ℕ → M.port.bytes.State → ℕ × M.port.bytes.State) where
    abbrev pub board : Host
    board = record { ports = M.port; is_root = is_root; ioperm = ioperm }

    module _ (linux_pio aligned debug : Bool) where
      transfer_read-at :
          (port address n : ℕ) (s : M.port.bytes.State)
          → address % 4 ≡ 0
          → address + n + 4 < 2 ^ 16
          → (transfer_read board linux_pio (ok true) aligned debug port address n s).0
            ≡ ok (span M.at address n)
      unfolding transfer_read
      transfer_read-at port address n s a h =
          transfer_read-span M aligned debug address n s (inl a) h

      read_body-at :
          (n : ℕ) (s : M.port.bytes.State)
          → n ≤ 256
          → checksum_buffers (span M.at 0 8 ∷ span M.at 8 n ∷ []) ≡ 0
          → (read_body board linux_pio (ok true) aligned debug (span M.at 0 8) n s).0
            ≡ ok (span M.at 8 n)
      unfolding read_body
      read_body-at zero s h sum = refl
      read_body-at (suc n) s h sum =
          rw
            (
              lt→ltb 0 (suc n) (omega arith),
              transfer_read-at host_args 8 (suc n) s refl (omega (arith, h)),
              sum,
              asserted debug,
            )
            refl

      -- On a board with a MEC, a response in the memory of the EC that reports success is returned with
      -- the data behind its header, in builds with and without overflow checks and debug assertions.
      pub receive-IsResponse :
          (n : ℕ) (s : M.port.bytes.State)
          → (M.port.bytes.read host_data s).0 ≡ 0
          → IsResponse n
          → (receive board linux_pio (ok true) aligned debug s).0 ≡ ok (span M.at 8 n)
      unfolding receive check_status check_header unpack_response_header
      receive-IsResponse n s success r =
          rw
            (
              success,
              transfer_read-at host_args 0 8 (M.port.bytes.read host_data s).1 refl (omega arith),
              r.version,
              r.result,
              r.data_len,
              r.reserved,
              le→not_ltb 0x100 n r.fits,
            )
            (read_body-at n _ r.fits r.sums_to_zero)
