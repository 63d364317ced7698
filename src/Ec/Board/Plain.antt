-- ===== src/Ec/Board/Plain.antt =====
-- chromium_ec/portio.rs on a board without a MEC, whose ports may be used.
use framework_system.Base.{
  ℕ, List, [], ◌∷◌, Bool, not, ◌||◌, true, false, ltb, ◌==◌, Option, none, some, ok, err, panic,
  ◌≡◌, refl, Bool-cases, Option-cases, Result-cases, inl, inr,
}
use framework_system.Base.Calls.{Call, pure, ◌≫=◌}
use framework_system.Ec.Status.{EcError, EcResult}
use framework_system.Ec.Packet.{checksum_buffers}
use framework_system.Ec.Port
use framework_system.Ec.Port.{
  host_data, host_cmd, host_args, command_protocol_3, response_len, unpack_response_header,
  check_status, check_header, debug_assert, request_packet,
}
use framework_system.Ec.Board.{
  Host, Initialized, succeeded, init, linux_init, transfer_read, transfer_write, read_body, receive,
  wait_for_ready, exchange, send_command,
}

module _ (H : Host) (linux_pio aligned debug : Bool) where
  -- The result of the driver for the ports, with what `init` noted.
  abbrev pub initialized :
      {A : Type 0}
      → Option (EcResult A × H.ports.bytes.State)
      → Option (EcResult A × (Initialized × H.ports.bytes.State))
  initialized none = none
  initialized (some (r, s)) = some (r, (succeeded, s))

  init-succeeded :
      (s : H.ports.bytes.State)
      → init H linux_pio (ok false) (succeeded, s) ≡ (ok true, (succeeded, s))
  unfolding init linux_init
  init-succeeded s = elim (Bool-cases linux_pio) [ inl e ↦ rw e refl | inr e ↦ rw e refl ]

  read_body-plain :
      (header : List ℕ) (n : ℕ) (s : H.ports.bytes.State)
      → read_body H linux_pio (ok false) aligned debug header n s
        ≡ Port.read_body H.ports.bytes debug header n s
  unfolding read_body transfer_read Port.read_body
  read_body-plain header n s = elim (Bool-cases (ltb 0 n)) [
    | inl e ↦
        rw e
          (elim (Bool-cases (
            not debug
            || (checksum_buffers
                  (header ∷ (Port.transfer_read H.ports.bytes host_args response_len n s).0 ∷ [])
                == 0))) [ inl c ↦ rw c refl | inr c ↦ rw c refl ])
    | inr e ↦ rw e refl
  ]

  checked-plain :
      {A : Type 0} (r : EcResult A) (s : H.ports.bytes.State)
      (f g : A → Call H.ports.bytes.State EcError (List ℕ))
      → ((a : A) (s1 : H.ports.bytes.State) → f a s1 ≡ g a s1)
      → (pure r ≫= f) s ≡ Port.checked H.ports.bytes r s g
  checked-plain (ok a) s f g same = same a s
  checked-plain (err e) s f g same = refl
  checked-plain panic s f g same = refl

  receive-plain :
      (s : H.ports.bytes.State)
      → receive H linux_pio (ok false) aligned debug s ≡ Port.receive H.ports.bytes debug s
  unfolding receive transfer_read Port.receive
  receive-plain s = checked-plain (check_status (H.ports.bytes.read host_data s).0) _ _ _ λ _ s2.
      let header = (Port.transfer_read H.ports.bytes host_args 0 response_len s2).0 in
      checked-plain (check_header (unpack_response_header header)) _ _ _
        λ _ s4. read_body-plain header (unpack_response_header header).data_len s4

  -- The answer to waiting.
  abbrev waited :
      Option H.ports.bytes.State
      → Option (EcResult (Unit {0}) × (Initialized × H.ports.bytes.State))
  waited none = none
  waited (some s) = some (ok tt, (succeeded, s))

  waited_lem :
      (o : Option H.ports.bytes.State)
      → elim o as (λ _. Option (EcResult (Unit {0}) × (Initialized × H.ports.bytes.State))) [
        | none ↦ none
        | some s ↦ some (ok tt, (succeeded, s))
      ]
        ≡ waited o
  waited_lem none = refl
  waited_lem (some s) = refl

  wait_for_ready-plain :
      (fuel : ℕ) (s : H.ports.bytes.State)
      → wait_for_ready H linux_pio (ok false) aligned debug fuel (succeeded, s)
        ≡ waited (Port.wait_for_ready H.ports.bytes fuel s)
  unfolding wait_for_ready
  wait_for_ready-plain fuel s =
      rw (init-succeeded s) (waited_lem (Port.wait_for_ready H.ports.bytes fuel s))

  exchange-plain :
      (fuel : ℕ) (packet : List ℕ) (s : H.ports.bytes.State)
      → exchange H linux_pio (ok false) aligned debug fuel packet (succeeded, s)
        ≡ initialized (elim (Port.transmit H.ports.bytes fuel packet s) [
          | none ↦ none
          | some s1 ↦ some (Port.receive H.ports.bytes debug s1)
        ])
  unfolding exchange transfer_write Port.transmit
  exchange-plain fuel packet s =
      rw (wait_for_ready-plain fuel s)
        (elim (Option-cases (Port.wait_for_ready H.ports.bytes fuel s)) [
          | inl e ↦ rw e refl
          | inr (s1, e) ↦
              let s2 =
                H.ports.bytes.write host_cmd command_protocol_3
                  (Port.transfer_write H.ports.bytes 0 packet s1) in
              rw (e, wait_for_ready-plain fuel s2)
                (elim (Option-cases (Port.wait_for_ready H.ports.bytes fuel s2)) [
                  | inl e2 ↦ rw e2 refl
                  | inr (s3, e2) ↦ rw (e2, receive-plain s3) refl
                ])
        ])

  -- Once `init` has succeeded, and on a board without a MEC, `send_command` does what it does over bare
  -- ports: the same answer, the same state of the ports, and the same ends of the waiting.
  pub send_command-plain :
      (fuel command version : ℕ) (payload : List ℕ) (s : H.ports.bytes.State)
      → send_command H linux_pio
          (ok false)
          aligned
          debug
          fuel
          command
          version
          payload
          (succeeded, s)
        ≡ initialized (Port.send_command H.ports.bytes debug fuel command version payload s)
  unfolding send_command exchange transfer_write Port.send_command Port.transmit
  send_command-plain fuel command version payload s =
      rw (init-succeeded s)
        (elim (Result-cases (request_packet H.ports.bytes command version payload)) [
          | inl (packet, e) ↦ rw (Port.send_command, e, exchange-plain fuel packet s) refl
          | inr (inl (e, failed)) ↦ rw (Port.send_command, failed) refl
          | inr (inr e) ↦ rw (Port.send_command, e) refl
        ])
