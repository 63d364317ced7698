-- ===== src/Tests/Ec.antt =====
-- A request for the version of the EC, and the input deck of a Framework 16.
use framework_system.Base.{
  List, [], ◌∷◌, ℕ, ◌+◌, ◌≡◌, ◌≢◌, ◌↔◌, refl, ok, Returns, true, arith, ◌<◌, get_or, length,
}
use framework_system.Ec.Packet.{EcHostRequest, pack_request}
use framework_system.Ec.Packet.Checksum.{IsPacket, pack_request-IsPacket}
use framework_system.Ec.Deck.{
  InputDeckStatus, EcResponseDeckState, full_width, no_module, size, force_off, on, force_on,
  fully_populated,
}
use framework_system.Ec.Deck.Laws.{IsDecodable, fully_populated_iff}

abbrev request : EcHostRequest
request = record {
  struct_version = 3;
  checksum = 0;
  command = 0x3E01;
  command_version = 0;
  reserved = 0;
  data_len = 2;
}

abbrev payload : List ℕ
payload = 0x02 ∷ 0xFF ∷ []

-- 3 + 0x3E + 0x01 + 2 + 2 + 0xFF + 0xBB is a multiple of 256.
packed :
    pack_request {E = Unit {0}} request payload
    ≡ ok (3 ∷ 0xBB ∷ 0x01 ∷ 0x3E ∷ 0 ∷ 0 ∷ 2 ∷ 0 ∷ 0x02 ∷ 0xFF ∷ [])
unfolding pack_request
packed = unfold framework_system.Bytes.to_le framework_system.Base.slice in refl

pack_request-IsPacket_example :
    (p : List ℕ) × (pack_request {E = Unit {0}} request payload ≡ ok p) × IsPacket request payload p
pack_request-IsPacket_example =
    pack_request-IsPacket request payload refl (omega arith) (omega arith) (omega arith)
      (omega arith) (omega arith)

-- A full-width module, with the deck switched off.
abbrev deck : InputDeckStatus
deck = record {
  state = force_off;
  hubboard_present = true;
  touchpad_present = true;
  top_row = record {
    pos0 = full_width;
    pos1 = no_module;
    pos2 = no_module;
    pos3 = no_module;
    pos4 = no_module;
  };
}

deck_populated : fully_populated deck ≡ true
unfolding fully_populated size
deck_populated = refl

deck_complete : (fully_populated deck ≡ true) ↔ (
    (deck.state ≢ on)
    × (deck.state ≢ force_on)
    × (deck.hubboard_present ≡ true)
    × (deck.touchpad_present ≡ true)
    × (size deck.top_row.pos0
          + size deck.top_row.pos1
          + size deck.top_row.pos2
          + size deck.top_row.pos3
          + size deck.top_row.pos4
        ≡ 8))
deck_complete = fully_populated_iff deck

abbrev response : EcResponseDeckState
response = record { board_id = 12 ∷ 15 ∷ 15 ∷ 15 ∷ 11 ∷ 13 ∷ 0xFF ∷ 7 ∷ []; deck_state = 3 }

known : (slot : ℕ) → slot < 8 → slot ≢ 6 → get_or response.board_id slot 0 < 16
known slot h k = ground arith

response-IsDecodable : IsDecodable response
response-IsDecodable = record { slots = refl; known_state = omega arith; known_modules = known }
