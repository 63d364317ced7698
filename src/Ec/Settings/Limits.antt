-- ===== src/Ec/Settings/Limits.antt =====
-- The charge limit (chromium_ec/mod.rs), over an EC that keeps what it is told.
use framework_system.Base.{ℕ, [], ◌∷◌, ◌≡◌, refl, ok, arith}
use framework_system.Bytes.{field, from_le}
use framework_system.Ec.Driver.{
  Driver, bind, send_request, send_command_extra, send_command_vec_extra,
}
use framework_system.Ec.Commands.{send, command_code}
use framework_system.Ec.Settings.{set_charge_limit, get_charge_limit}

-- An EC with two registers. The first number behind the mode is the maximum, the second the minimum,
-- in requests and in responses.
pub record LimitKeeper : Type 1 where
  pub driver : Driver
  pub maximum : driver.State → ℕ
  pub minimum : driver.State → ℕ
  pub stored : ℕ → ℕ → driver.State → driver.State
  pub answers_set :
      (s : driver.State) (max min : ℕ)
      → driver.send_command 0x3E03 0 (0x02 ∷ max ∷ min ∷ []) s ≡ (ok [], stored max min s)
  pub answers_get :
      (s : driver.State)
      → driver.send_command 0x3E03 0 (0x08 ∷ 0xFF ∷ 0xFF ∷ []) s
        ≡ (ok (maximum s ∷ minimum s ∷ []), s)
  pub keeps_maximum : (s : driver.State) (max min : ℕ) → maximum (stored max min s) ≡ max
  pub keeps_minimum : (s : driver.State) (max min : ℕ) → minimum (stored max min s) ≡ min

pub field_first : (a b : ℕ) → field (a ∷ b ∷ []) 0 1 ≡ a
unfolding field from_le
field_first a b = omega arith

pub field_second : (a b : ℕ) → field (a ∷ b ∷ []) 1 1 ≡ b
unfolding field from_le
field_second a b = omega arith

module _ (K : LimitKeeper) where
  -- Over an EC that keeps the limits it is told, and that has the maximum in front of the minimum,
  -- `set_charge_limit` followed by `get_charge_limit` gives the minimum and the maximum that were
  -- set.
  pub get_charge_limit-set_charge_limit :
      (min max : ℕ) (s : K.driver.State)
      → (bind K.driver (set_charge_limit K.driver min max) (λ _. get_charge_limit K.driver) s).0
        ≡ ok (min, max)
  unfolding set_charge_limit get_charge_limit send send_request send_command_extra
      send_command_vec_extra command_code
  get_charge_limit-set_charge_limit min max s =
      let s1 = K.stored max min s in
      rw
        (
          K.answers_set s max min,
          K.answers_get s1,
          field_first (K.maximum s1) (K.minimum s1),
          field_second (K.maximum s1) (K.minimum s1),
          K.keeps_maximum s max min,
          K.keeps_minimum s max min,
        )
        refl
