-- ===== src/Ec/Deck/Laws.antt =====
-- When a deck counts as populated, and which responses of the EC are decoded.
use framework_system.Base.{ℕ, ◌+◌, ◌<◌, ◌≤◌, ◌≡◌, ◌≢◌, refl, arith, ◌↔◌, true}
use framework_system.Base.{length, Returns, Returns-bind, index_in_range, get_or}
use framework_system.Ec.Deck.{
  InputModuleType, full_width, size, on, force_on, InputDeckStatus, fully_populated,
  module_type_from, deck_state_from, deck_status_from, module_in, EcResponseDeckState,
}

module_type_from-Returns : (item : ℕ) → item < 16 → Returns (module_type_from {E = Unit {0}} item)
unfolding module_type_from
module_type_from-Returns item h = ground arith

deck_state_from-Returns : (item : ℕ) → item < 7 → Returns (deck_state_from {E = Unit {0}} item)
unfolding deck_state_from
deck_state_from-Returns item h = ground arith

size-le : (t : InputModuleType) → size t ≤ 8
unfolding size
size-le full_width = omega arith
size-le _ = omega arith

-- A deck counts as fully populated exactly when its state is neither `On` nor `ForceOn`, the hub
-- board and the touchpad are present, and the widths of the top row add up to the 8 slots.
pub fully_populated_iff :
    (s : InputDeckStatus)
    → (fully_populated s ≡ true) ↔ (
        (s.state ≢ on)
        × (s.state ≢ force_on)
        × (s.hubboard_present ≡ true)
        × (s.touchpad_present ≡ true)
        × (size s.top_row.pos0
              + size s.top_row.pos1
              + size s.top_row.pos2
              + size s.top_row.pos3
              + size s.top_row.pos4
            ≡ 8))
unfolding fully_populated
fully_populated_iff s = ground arith

-- A full-width module fills the top row alone: next to one, every other slot of a fully populated
-- row holds a module of width 0.
full_width_alone :
    (s : InputDeckStatus)
    → fully_populated s ≡ true
    → s.top_row.pos0 ≡ full_width
    → (size s.top_row.pos1 ≡ 0)
      × (size s.top_row.pos2 ≡ 0)
      × (size s.top_row.pos3 ≡ 0)
      × (size s.top_row.pos4 ≡ 0)
full_width_alone s h e = omega (arith, (fully_populated_iff s).0 h, width)
  where
    width : size s.top_row.pos0 ≡ 8
    width = rw e (unfold size in refl)

-- The values of a response that stand for a deck: a known state, and known modules in all slots
-- but the one that is not connected.
pub record IsDecodable (item : EcResponseDeckState) : Type 0 where
  pub slots : length item.board_id ≡ 8
  pub known_state : item.deck_state < 7
  pub known_modules : (slot : ℕ) → slot < 8 → slot ≢ 6 → get_or item.board_id slot 0 < 16

module _ (item : EcResponseDeckState) (d : IsDecodable item) where
  module_in-Returns :
      (slot : ℕ) → slot < 8 → slot ≢ 6 → Returns (module_in {E = Unit {0}} item slot)
  unfolding module_in
  module_in-Returns slot h connected =
      rw (index_in_range item.board_id slot 0 (omega (arith, d.slots)))
        (module_type_from-Returns _ (d.known_modules slot h connected))

  -- Such a response is decoded without a panic.
  deck_status_from-Returns : Returns (deck_status_from {E = Unit {0}} item)
  unfolding deck_status_from
  deck_status_from-Returns =
      Returns-bind _ _ (deck_state_from-Returns item.deck_state d.known_state) λ state e.
        Returns-bind _ _ (module_in-Returns 7 (omega arith) (omega arith)) λ hub e7.
          Returns-bind _ _ (module_in-Returns 5 (omega arith) (omega arith)) λ pad e5.
            Returns-bind _ _ (module_in-Returns 0 (omega arith) (omega arith)) λ p0 e0.
              Returns-bind _ _ (module_in-Returns 1 (omega arith) (omega arith)) λ p1 e1.
                Returns-bind _ _ (module_in-Returns 2 (omega arith) (omega arith)) λ p2 e2.
                  Returns-bind _ _ (module_in-Returns 3 (omega arith) (omega arith)) λ p3 e3.
                    Returns-bind _ _ (module_in-Returns 4 (omega arith) (omega arith)) λ p4 e4. tt
