-- ===== src/Ec/Deck.antt =====
-- chromium_ec/input_deck.rs: the modules on the input deck of the Framework 16.
pub mod Laws
use mathlib.Core.List.{foldr}
use framework_system.Base.{ℕ, ◌+◌, List, [], ◌∷◌, map, Bool, true, false, not, ◌==◌, if◌then◌else◌}
use framework_system.Base.{Result, ok, panic, ◌>>=◌, index}

abbrev pub input_deck_slots : ℕ
input_deck_slots = 8

-- The slots of the MUX that `InputDeckStatus::from` reads; number 6 is not connected.
abbrev pub touchpad_slot : ℕ
touchpad_slot = 5

abbrev pub hub_board_slot : ℕ
hub_board_slot = 7

pub data InputModuleType : Type 0 where
  short reserved1 reserved2 reserved3 reserved4 reserved5 full_width hub_board : InputModuleType
  generic_a generic_b generic_c keyboard_b keyboard_a touchpad : InputModuleType
  reserved15 no_module : InputModuleType

-- `InputModuleType::from(u8)`
unfoldable pub module_type_from {ℓ} : {E : Type ℓ} → ℕ → Result E InputModuleType
module_type_from item =
    if item == 0
    then ok short
    else if item == 1
    then ok reserved1
    else if item == 2
    then ok reserved2
    else if item == 3
    then ok reserved3
    else if item == 4
    then ok reserved4
    else if item == 5
    then ok reserved5
    else if item == 6
    then ok full_width
    else if item == 7
    then ok hub_board
    else if item == 8
    then ok generic_a
    else if item == 9
    then ok generic_b
    else if item == 10
    then ok generic_c
    else if item == 11
    then ok keyboard_b
    else if item == 12
    then ok keyboard_a
    else if item == 13
    then ok touchpad
    else if item == 14
    then ok reserved15
    else if item == 15
    then ok no_module
    else panic

unfoldable pub size : InputModuleType → ℕ
size short = 0
size reserved1 = 0
size reserved2 = 0
size reserved3 = 0
size reserved4 = 0
size reserved5 = 0
size full_width = 8
size hub_board = 0
size generic_a = 6
size generic_b = 2
size generic_c = 1
size keyboard_b = 2
size keyboard_a = 6
size touchpad = 0
size reserved15 = 0
size no_module = 0

pub data InputDeckState : Type 0 where
  off disconnected turning_on on force_off force_on no_detection : InputDeckState

-- `InputDeckState::from(u8)`
unfoldable pub deck_state_from {ℓ} : {E : Type ℓ} → ℕ → Result E InputDeckState
deck_state_from item =
    if item == 0
    then ok off
    else if item == 1
    then ok disconnected
    else if item == 2
    then ok turning_on
    else if item == 3
    then ok on
    else if item == 4
    then ok force_off
    else if item == 5
    then ok force_on
    else if item == 6
    then ok no_detection
    else panic

pub record TopRowPositions : Type 0 where
  pub pos0 : InputModuleType
  pub pos1 : InputModuleType
  pub pos2 : InputModuleType
  pub pos3 : InputModuleType
  pub pos4 : InputModuleType

pub record InputDeckStatus : Type 0 where
  pub state : InputDeckState
  pub hubboard_present : Bool
  pub touchpad_present : Bool
  pub top_row : TopRowPositions

unfoldable pub top_row_to_array : InputDeckStatus → List InputModuleType
top_row_to_array s =
    s.top_row.pos0 ∷ s.top_row.pos1 ∷ s.top_row.pos2 ∷ s.top_row.pos3 ∷ s.top_row.pos4 ∷ []

unfoldable pub top_row_fully_populated : InputDeckStatus → Bool
unfolding top_row_to_array
top_row_fully_populated s = foldr ◌+◌ 0 (map size (top_row_to_array s)) == input_deck_slots

-- `matches!(state, ForceOn | On)`
abbrev pub is_powered : InputDeckState → Bool
is_powered force_on = true
is_powered on = true
is_powered _ = false

unfoldable pub fully_populated : InputDeckStatus → Bool
unfolding top_row_fully_populated
fully_populated s =
    if is_powered s.state
    then false
    else if not s.hubboard_present
    then false
    else if not s.touchpad_present
    then false
    else top_row_fully_populated s

-- The response of the EC, with an array of 8 board ids.
pub record EcResponseDeckState : Type 0 where
  pub board_id : List ℕ
  pub deck_state : ℕ

abbrev is_hub_board : InputModuleType → Bool
is_hub_board hub_board = true
is_hub_board _ = false

abbrev is_touchpad : InputModuleType → Bool
is_touchpad touchpad = true
is_touchpad _ = false

-- The type of the module in a slot.
unfoldable pub module_in {ℓ} : {E : Type ℓ} → EcResponseDeckState → ℕ → Result E InputModuleType
module_in item slot = index item.board_id slot >>= module_type_from

-- `InputDeckStatus::from(EcResponseDeckState)`
unfoldable pub deck_status_from {ℓ} : {E : Type ℓ} → EcResponseDeckState → Result E InputDeckStatus
deck_status_from item = do
  state ← deck_state_from item.deck_state
  hub ← module_in item hub_board_slot
  pad ← module_in item touchpad_slot
  p0 ← module_in item 0
  p1 ← module_in item 1
  p2 ← module_in item 2
  p3 ← module_in item 3
  p4 ← module_in item 4
  ok (record {
    state = state;
    hubboard_present = is_hub_board hub;
    touchpad_present = is_touchpad pad;
    top_row = record { pos0 = p0; pos1 = p1; pos2 = p2; pos3 = p3; pos4 = p4 };
  })
