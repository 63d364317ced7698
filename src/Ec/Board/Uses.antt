-- ===== src/Ec/Board/Uses.antt =====
-- chromium_ec/portio.rs on a board without a MEC: which ports the transfers, the waiting and a command
-- use.
use framework_system.Base.{
  ℕ, zero, suc, ◌+◌, ◌≤◌, ◌<◌, List, [], ◌∷◌, length, Bool, true, false, ltb, leb, ◌==◌,
  if◌then◌else◌, Option, none, some, ok, err, panic, ◌≡◌, refl, subst, ◌⊎◌, inl, inr, lt→ltb, arith,
  bit_and, slice, Bool-cases, ◌∙◌, Result-cases, length-take, drop, replicate, length-replicate,
  >>=-ok, assert, min, ◌-◌, ◌^◌,
}
use framework_system.Ec.Port.{
  Port, transfer_write, transfer_read, wait_for_ready, status_busy_mask, request_packet,
  request_for, checked, read_body, receive, transmit, send_command, host_args, command_protocol_3,
  response_len, check_status, check_header, unpack_response_header,
}
use framework_system.Ec.Port.Guards.{check_header-ok, length-transfer_read}
use framework_system.Ec.Board.{Host}
use framework_system.Ec.Status.{EcError, EcResult}
use framework_system.Ec.Packet.{
  pack_request, pack_into, fill, request_bytes, request_len, checksum_buffer,
}
use framework_system.Ec.Board.Watched.{Watched, watched, used, Needed, MayUse, used-MayUse}

module _ (H : Host) where
  abbrev P : Port
  P = (watched H).ports.bytes

  transfer_write-MayUse :
      (i : ℕ) (bytes : List ℕ) (w : Watched H.ports.bytes.State)
      → i + length bytes ≤ 263
      → MayUse w
      → MayUse (transfer_write P i bytes w)
  unfolding transfer_write
  transfer_write-MayUse i [] w h m = m
  transfer_write-MayUse i (byte ∷ bytes) w h m =
      transfer_write-MayUse (i + 1) bytes _ (omega arith) (
        used-MayUse (0x800 + i) (H.ports.bytes.write (0x800 + i) byte w.inner) w
          (inl (omega arith, omega arith)) m)

  -- A range inside the window or inside the memory map.
  abbrev pub Inside : ℕ → ℕ → Type 0
  Inside port n = (i : ℕ) → i < n → Needed (port + i)

  pub transfer_read-MayUse :
      (port address n : ℕ) (w : Watched H.ports.bytes.State)
      → Inside (port + address) n
      → MayUse w
      → MayUse (transfer_read P port address n w).1
  unfolding transfer_read
  transfer_read-MayUse port address zero w h m = m
  transfer_read-MayUse port address (suc n) w h m =
      let here : port + address + 0 ≡ port + address = omega arith in
      let step : (i : ℕ) → port + address + suc i ≡ port + (address + 1) + i = λ i. omega arith in
      transfer_read-MayUse port (address + 1) n _
        (λ i l. subst Needed (step i) (h (suc i) (omega arith)))
        (used-MayUse (port + address) (H.ports.bytes.read (port + address) w.inner).1 w
          (subst Needed here (h 0 (omega arith))) m)

  found_state :
      (ready : Bool) (w1 w' : Watched H.ports.bytes.State)
      (later : Option (Watched H.ports.bytes.State))
      → (if ready then some w1 else later) ≡ some w'
      → MayUse w1
      → (later ≡ some w' → MayUse w')
      → MayUse w'
  found_state true w1 w' later e m rest = let same : w1 ≡ w' = cc in subst MayUse same m
  found_state false w1 w' later e m rest = rest e

  wait_for_ready-MayUse :
      (fuel : ℕ) (w w' : Watched H.ports.bytes.State)
      → wait_for_ready P fuel w ≡ some w'
      → MayUse w
      → MayUse w'
  unfolding wait_for_ready
  wait_for_ready-MayUse zero w w' e m = cc
  wait_for_ready-MayUse (suc fuel) w w' e m =
      let asked = used-MayUse 0x204 (H.ports.bytes.read 0x204 w.inner).1 w (inr (inl refl)) m in
      found_state (bit_and (H.ports.bytes.read 0x204 w.inner).0 status_busy_mask == 0) _ w'
        (wait_for_ready P fuel _) e asked (λ later. wait_for_ready-MayUse fuel _ w' later asked)

  slice_size :
      (xs ys : List ℕ) (n : ℕ) → slice {E = EcError} xs 0 n ≡ ok ys → n ≤ 256 → length ys ≤ 256
  unfolding slice
  slice_size xs ys n e h = ground (arith, length-take n (drop 0 xs))

  request_packet-size :
      (command version : ℕ) (payload packet : List ℕ)
      → request_packet P command version payload ≡ ok packet
      → length packet ≤ 256
  unfolding request_packet pack_request pack_into
  request_packet-size command version payload packet e =
      let r = request_for P command version payload in
      let zeroes : List ℕ = replicate 256 0 in
      let total : length zeroes ≡ 256 = length-replicate {A = ℕ} 256 0 in
      let n = min (length zeroes - request_len) (length payload) in
      let (fits, u, packed) =
        >>=-ok (assert (ltb (length payload) (2 ^ 16))) (λ done. pack_request r payload) e in
      let (fits', u', packed') = >>=-ok (assert (leb (request_len + n) (length zeroes))) _ packed in
      let (first, e1, h1) = >>=-ok (fill zeroes (request_bytes r) payload n) _ packed' in
      let (summed, e2, h2) = >>=-ok (slice first 0 (request_len + n)) _ h1 in
      let (second, e3, h3) =
        >>=-ok
          (fill first (request_bytes (record r { checksum = checksum_buffer summed })) payload n) _
          h2 in
      slice_size second packet (request_len + n) h3 (omega (arith, total))

  -- A call that was allowed all ports that it used, unless it read a response with 256 bytes.
  abbrev pub IsAllowed : EcResult (List ℕ) × Watched H.ports.bytes.State → Type 0
  IsAllowed x = MayUse x.1 ⊎ ((bytes : List ℕ) × (x.0 ≡ ok bytes) × (length bytes ≡ 256))

  checked-IsAllowed :
      {A : Type 0} (r : EcResult A) (w : Watched H.ports.bytes.State)
      (next : A → Watched H.ports.bytes.State → EcResult (List ℕ) × Watched H.ports.bytes.State)
      → MayUse w
      → ((a : A) → r ≡ ok a → IsAllowed (next a w))
      → IsAllowed (checked P r w next)
  checked-IsAllowed (ok a) w next m h = h a refl
  checked-IsAllowed (err e) w next m h = inl m
  checked-IsAllowed panic w next m h = inl m

  read_body-IsAllowed :
      (header : List ℕ) (n : ℕ) (w : Watched H.ports.bytes.State)
      → n ≤ 256
      → MayUse w
      → IsAllowed (read_body P false header n w)
  unfolding read_body
  read_body-IsAllowed header zero w h m = inl m
  read_body-IsAllowed header (suc n) w h m =
      rw (lt→ltb 0 (suc n) (omega arith)) (elim (Bool-cases (n == 255)) [
        | inl e ↦ inr (
          (transfer_read P host_args response_len (suc n) w).0,
          refl,
          length-transfer_read P host_args response_len (suc n) w ∙ ground arith,
        )
        | inr e ↦ inl (
            transfer_read-MayUse host_args response_len (suc n) w
              (λ i l. inl (omega arith, ground arith)) m)
      ])

  receive-IsAllowed : (w : Watched H.ports.bytes.State) → MayUse w → IsAllowed (receive P false w)
  unfolding receive
  receive-IsAllowed w m =
      let asked =
        used-MayUse 0x200 (H.ports.bytes.read 0x200 w.inner).1 w (inr (inr (inl refl))) m in
      checked-IsAllowed (check_status (H.ports.bytes.read 0x200 w.inner).0) _ _ asked λ u passed.
        let w2 = used 0x200 (H.ports.bytes.read 0x200 w.inner).1 w in
        let header = (transfer_read P host_args 0 response_len w2).0 in
        let read =
          transfer_read-MayUse host_args 0 response_len w2 (λ i l. inl (omega arith, omega arith))
            asked in
        checked-IsAllowed (check_header (unpack_response_header header)) _ _ read λ u2 valid.
          let (result, version, reserved, fits) =
            check_header-ok (unpack_response_header header) valid in
          read_body-IsAllowed header (unpack_response_header header).data_len _ fits read

  -- For a command that ends.
  abbrev pub Ended : Option (EcResult (List ℕ) × Watched H.ports.bytes.State) → Type 0
  Ended none = Unit
  Ended (some x) = IsAllowed x

  receive_after :
      (o : Option (Watched H.ports.bytes.State))
      → ((w : Watched H.ports.bytes.State) → o ≡ some w → MayUse w)
      → Ended (elim o [ none ↦ none | some w ↦ some (receive P false w) ])
  receive_after none h = tt
  receive_after (some w) h = receive-IsAllowed w (h w refl)

  waited_for :
      (o : Option (Watched H.ports.bytes.State)) (w' : Watched H.ports.bytes.State)
      (next : Watched H.ports.bytes.State → Option (Watched H.ports.bytes.State))
      → elim o as (λ _. Option (Watched H.ports.bytes.State)) [ none ↦ none | some w ↦ next w ]
        ≡ some w'
      → (w : Watched H.ports.bytes.State) × (o ≡ some w) × (next w ≡ some w')
  waited_for none w' next e = cc
  waited_for (some w) w' next e = (w, refl, e)

  transmit-MayUse :
      (fuel : ℕ) (packet : List ℕ) (w w' : Watched H.ports.bytes.State)
      → length packet ≤ 256
      → transmit P fuel packet w ≡ some w'
      → MayUse w
      → MayUse w'
  unfolding transmit
  transmit-MayUse fuel packet w w' size e m =
      let (w1, ready, rest) = waited_for (wait_for_ready P fuel w) w' _ e in
      let written = transfer_write P 0 packet w1 in
      let ready_use = wait_for_ready-MayUse fuel w w1 ready m in
      wait_for_ready-MayUse fuel _ w' rest (
        used-MayUse 0x204 (H.ports.bytes.write 0x204 command_protocol_3 written.inner) written
          (inr (inl refl)) (transfer_write-MayUse 0 packet w1 (omega (arith, size)) ready_use))

  pub send_command-IsAllowed :
      (fuel command version : ℕ) (payload : List ℕ) (w : Watched H.ports.bytes.State)
      → MayUse w
      → Ended (send_command P false fuel command version payload w)
  unfolding send_command transmit
  send_command-IsAllowed fuel command version payload w m =
      elim (Result-cases (request_packet P command version payload)) [
        | inl (packet, e) ↦
            rw (send_command, e)
              (receive_after (transmit P fuel packet w) λ w' sent.
                transmit-MayUse fuel packet w w'
                  (request_packet-size command version payload packet e) sent m)
        | inr (inl (e, failed)) ↦ rw (send_command, failed) (inl m)
        | inr (inr e) ↦ rw (send_command, e) (inl m)
      ]
