-- ===== src/Audio/Answers.antt =====
-- audio_card.rs: when the loop that asks for the version ends.
use framework_system.Base.{
  true, false, ℕ, zero, suc, ◌<◌, List, ◌∷◌, replicate, panic, Maybe, if◌then◌else◌, Bool-cases,
  inl, inr, ◌==◌, ==_iff, ◌≡◌, ◌≢◌, refl, some, ok, arith,
}
use framework_system.Bytes.{field, to_le}
use framework_system.Audio.{Usb, command_of, cape_request, set_hid_report, get_hid_report, poll}

-- The 62 bytes of a request for the version, written out: the number of the report, the length 13 of
-- the data, the command 0x0103, the number of the module, and 52 zeros.
abbrev pub version_request : List ℕ
version_request = 1 ∷ 0 ∷ 13 ∷ 0 ∷ 0x03 ∷ 0x01 ∷ 0x00 ∷ 0x23 ∷ 0x2D ∷ 0xB3 ∷ replicate 52 0

-- A card that needs a number of further requests before its answer is ready. The number and the
-- answer depend on the state, and each round of writing and reading takes one off. It takes a
-- request that is set (0x09) as the output report 1 (0x0201) of its interface, and gives an answer
-- for the input report 1 (0x0101).
pub record Card : Type 1 where
  pub usb : Usb
  pub device : usb.Device
  pub index : ℕ
  pub pending : usb.State → ℕ
  pub ready : List ℕ
  -- The size that the read of the answer reports.
  pub size : ℕ
  pub busy : usb.State → List ℕ
  pub written : usb.State → usb.State
  pub next : usb.State → usb.State
  pub is_ready : field ready 4 2 ≡ 0x8103
  pub is_busy : (s : usb.State) → field (busy s) 4 2 ≢ 0x8103
  pub accepts :
      (s : usb.State)
      → usb.write_control device 0x09 0x0201 index version_request s ≡ (ok 62, written s)
  pub answers :
      (s : usb.State) (buffer : List ℕ)
      → pending s ≡ 0
      → usb.read_control device 0x01 0x0101 index buffer (written s) ≡ ((ok size, ready), next s)
  pub delays :
      (s : usb.State) (buffer : List ℕ) (n : ℕ)
      → pending s ≡ suc n
      → usb.read_control device 0x01 0x0101 index buffer (written s) ≡ ((ok 62, busy s), next s)
  pub counts : (s : usb.State) (n : ℕ) → pending s ≡ suc n → pending (next s) ≡ n

request_bytes : cape_request ≡ version_request
unfolding cape_request to_le
request_bytes = refl

is_not : (m n : ℕ) → m ≢ n → (m == n) ≡ false
is_not m n h = ground (arith, ==_iff m n)

is : (m n : ℕ) → m ≡ n → (m == n) ≡ true
is m n h = (==_iff m n).1 h

module _ (C : Card) where
  -- The state behind some rounds.
  abbrev pub after : ℕ → C.usb.State → C.usb.State
  after zero s = s
  after (suc n) s = after n (C.next s)

  -- Once the answer is there the loop ends.
  ended :
      (fuel : ℕ) (s : C.usb.State)
      → poll C.usb fuel C.device C.index C.ready s ≡ some (ok C.ready, s)
  unfolding poll command_of
  ended zero s = rw (is (field C.ready 4 2) 0x8103 C.is_ready) refl
  ended (suc fuel) s = rw (is (field C.ready 4 2) 0x8103 C.is_ready) refl

  abbrev pub result : Maybe (List ℕ)
  result = if C.size == 62 then ok C.ready else panic

  -- Over a card that takes the request of 62 bytes, written out as literal bytes, and is ready after
  -- some more requests, the loop that asks for the version ends, with more rounds of fuel than there
  -- are further requests, if the last response was not an answer. It ends with the answer of the card,
  -- if the answer has 62 bytes, and otherwise with a panic.
  pub poll-ready :
      (n fuel : ℕ) (response : List ℕ) (s : C.usb.State)
      → field response 4 2 ≢ 0x8103
      → C.pending s ≡ n
      → n < fuel
      → poll C.usb fuel C.device C.index response s ≡ some (result, after (suc n) s)
  unfolding poll command_of set_hid_report get_hid_report
  poll-ready n zero response s not_yet waits enough = absurd (omega arith)
  poll-ready zero (suc fuel) response s not_yet waits enough = elim (Bool-cases (C.size == 62)) [
    | inl whole ↦
        rw
          (
            is_not (field response 4 2) 0x8103 not_yet,
            request_bytes,
            C.accepts s,
            C.answers s response waits,
            whole,
          )
          (ended fuel (C.next s))
    | inr cut ↦
        rw
          (
            is_not (field response 4 2) 0x8103 not_yet,
            request_bytes,
            C.accepts s,
            C.answers s response waits,
            cut,
          )
          refl
  ]
  poll-ready (suc n) (suc fuel) response s not_yet waits enough =
      rw
        (
          is_not (field response 4 2) 0x8103 not_yet,
          request_bytes,
          C.accepts s,
          C.delays s response n waits,
        )
        (poll-ready n fuel (C.busy s) (C.next s) (C.is_busy s) (C.counts s n waits) (omega arith))
