-- ===== src/Ec/Port/Answers.antt =====
-- Commands over ports behind which an EC answers.
use framework_system.Base.{
  ℕ, zero, suc, ◌+◌, ◌≤◌, ◌<◌, ◌≡◌, refl, arith, List, [], ◌∷◌, length, take, drop, get_or, Bool,
  true, false, ◌==◌, ok, some, bit_and, ◌≢◌, lt→ltb, le→not_ltb,
}
use framework_system.Bytes.{field, field-take}
use framework_system.Ec.Packet.{checksum_buffers}
use framework_system.Ec.Port.{
  Port, host_data, host_cmd, host_args, command_protocol_3, status_busy_mask,
  unpack_response_header, check_status, check_header, transfer_write, transfer_read, wait_for_ready,
  read_body, receive, request_packet, transmit, send_command,
}

take-drop_step :
    {A : Type 0} (n a : ℕ) (xs : List A) (d : A)
    → a < length xs
    → take (suc n) (drop a xs) ≡ get_or xs a d ∷ take n (drop (a + 1) xs)
take-drop_step n a [] d h = absurd (omega arith)
take-drop_step n zero (x ∷ xs) d h = refl
take-drop_step {A = A} n (suc a) (x ∷ xs) d h =
    let e : suc a + 1 ≡ suc (a + 1) = omega arith in rw e (take-drop_step n a xs d (omega arith))

module _ (P : Port) where
  -- The bytes that a state shows at the ports of the response. Reading them changes nothing.
  abbrev pub Shows : P.State → List ℕ → Type 0
  Shows s window = (i : ℕ) → i < length window → P.read (host_args + i) s ≡ (get_or window i 0, s)

  transfer_read-Shows :
      (n a : ℕ) (s : P.State) (window : List ℕ)
      → Shows s window
      → a + n ≤ length window
      → transfer_read P host_args a n s ≡ (take n (drop a window), s)
  unfolding transfer_read
  transfer_read-Shows zero a s window shows h = refl
  transfer_read-Shows (suc n) a s window shows h =
      rw
        (
          shows a (omega arith),
          transfer_read-Shows n (a + 1) s window shows (omega arith),
          take-drop_step n a window 0 (omega arith),
        )
        refl

  -- A complete response that reports success, with `n` bytes of data.
  pub record IsAnswer (s : P.State) (window : List ℕ) (n : ℕ) : Type 0 where
    pub succeeds : P.read host_data s ≡ (0, s)
    pub shows : Shows s window
    pub complete : 8 + n ≤ length window
    pub version : field window 0 1 ≡ 3
    pub result : field window 2 2 ≡ 0
    pub data_len : field window 4 2 ≡ n
    pub reserved : field window 6 2 ≡ 0
    pub fits : n ≤ 0x100
    pub sums_to_zero : checksum_buffers (take 8 window ∷ take n (drop 8 window) ∷ []) ≡ 0

  read_body-Shows :
      (debug : Bool) (header : List ℕ) (n : ℕ) (s : P.State) (window : List ℕ)
      → Shows s window
      → 8 + n ≤ length window
      → checksum_buffers (header ∷ take n (drop 8 window) ∷ []) ≡ 0
      → read_body P debug header n s ≡ (ok (take n (drop 8 window)), s)
  unfolding read_body
  read_body-Shows debug header zero s window shows h sum = refl
  read_body-Shows true header (suc n) s window shows h sum =
      rw (transfer_read-Shows (suc n) 8 s window shows h, lt→ltb 0 (suc n) (omega arith), sum) refl
  read_body-Shows false header (suc n) s window shows h sum =
      rw (transfer_read-Shows (suc n) 8 s window shows h, lt→ltb 0 (suc n) (omega arith)) refl

  receive-IsAnswer :
      (debug : Bool) (s : P.State) (window : List ℕ) (n : ℕ)
      → IsAnswer s window n
      → receive P debug s ≡ (ok (take n (drop 8 window)), s)
  unfolding receive check_status check_header unpack_response_header
  receive-IsAnswer debug s window n a =
      rw
        (
          a.succeeds,
          transfer_read-Shows 8 0 s window a.shows (omega (arith, a.complete)),
          field-take window 8 0 1 (omega arith),
          a.version,
          field-take window 8 2 2 (omega arith),
          a.result,
          field-take window 8 4 2 (omega arith),
          a.data_len,
          field-take window 8 6 2 (omega arith),
          a.reserved,
          le→not_ltb 0x100 n a.fits,
        )
        (read_body-Shows debug (take 8 window) n s window a.shows a.complete a.sums_to_zero)

  -- The EC is busy for `k` questions and ready at the next one.
  abbrev pub ReadyAfter : ℕ → P.State → Type 0
  ReadyAfter zero s = bit_and (P.read host_cmd s).0 status_busy_mask ≡ 0
  ReadyAfter (suc k) s =
      (bit_and (P.read host_cmd s).0 status_busy_mask ≢ 0) × ReadyAfter k (P.read host_cmd s).1

  -- The state after `k` questions.
  abbrev pub asked : ℕ → P.State → P.State
  asked zero s = s
  asked (suc k) s = asked k (P.read host_cmd s).1

  wait_for_ready-ReadyAfter :
      (k fuel : ℕ) (s : P.State)
      → ReadyAfter k s
      → k < fuel
      → wait_for_ready P fuel s ≡ some (asked (suc k) s)
  unfolding wait_for_ready
  wait_for_ready-ReadyAfter k zero s r h = absurd (omega arith)
  wait_for_ready-ReadyAfter zero (suc fuel) s r h = rw r refl
  wait_for_ready-ReadyAfter (suc k) (suc fuel) s r h =
      let still : (bit_and (P.read host_cmd s).0 status_busy_mask == 0) ≡ false = ground arith in
      rw still (wait_for_ready-ReadyAfter k fuel _ r.1 (omega arith))

  -- The state after a packet and its command byte were written.
  abbrev pub commanded : ℕ → List ℕ → P.State → P.State
  commanded k packet s =
      P.write host_cmd command_protocol_3 (transfer_write P 0 packet (asked (suc k) s))

  -- If the EC gets ready within the fuel before and after the packet of a command is written, and
  -- then shows a complete response, `send_command` returns the data of the response.
  pub send_command-IsAnswer :
      (debug : Bool) (fuel command version : ℕ) (payload packet : List ℕ) (s : P.State)
      (before after n : ℕ) (window : List ℕ)
      → request_packet P command version payload ≡ ok packet
      → ReadyAfter before s
      → before < fuel
      → ReadyAfter after (commanded before packet s)
      → after < fuel
      → IsAnswer (asked (suc after) (commanded before packet s)) window n
      → send_command P debug fuel command version payload s
        ≡ some (ok (take n (drop 8 window)), asked (suc after) (commanded before packet s))
  unfolding send_command transmit
  send_command-IsAnswer debug fuel command version payload packet s before after n window made r1 h1
        r2 h2 a =
      rw
        (
          send_command,
          made,
          transmit,
          wait_for_ready-ReadyAfter before fuel s r1 h1,
          wait_for_ready-ReadyAfter after fuel (commanded before packet s) r2 h2,
          receive-IsAnswer debug _ window n a,
        )
        refl
