-- ===== src/Actions/Settings/ChargeLimit.antt =====
-- commandline/mod.rs: what the option `charge-limit` does to the limits that the EC keeps.
use framework_system.Base.{
  ℕ, ◌<◌, ◌≤◌, ltb, ◌≡◌, refl, ◌⊎◌, inl, inr, some, ok, err, arith, Bool-cases,
}
use framework_system.Ec.Status.{EcError}
use framework_system.Ec.Driver.{send_request, send_command_extra, send_command_vec_extra}
use framework_system.Ec.Commands.{send, command_code}
use framework_system.Ec.Settings.{set_charge_limit, get_charge_limit}
use framework_system.Ec.Settings.Limits.{LimitKeeper, field_first, field_second}
use framework_system.Actions.Settings.{too_low, too_high, change_limit, handle_charge_limit}

module _ (K : LimitKeeper) where
  get_charge_limit-kept :
      (s : K.driver.State) → get_charge_limit K.driver s ≡ (ok (K.minimum s, K.maximum s), s)
  unfolding get_charge_limit send send_request send_command_extra send_command_vec_extra
      command_code
  get_charge_limit-kept s =
      rw
        (
          K.answers_get s,
          field_first (K.maximum s) (K.minimum s),
          field_second (K.maximum s) (K.minimum s),
        )
        refl

  set_charge_limit-kept :
      (min max : ℕ) (s : K.driver.State)
      → set_charge_limit K.driver min max s ≡ (ok tt, K.stored max min s)
  unfolding set_charge_limit command_code
  set_charge_limit-kept min max s = rw (K.answers_set s max min) refl

  -- Over an EC that keeps the limits it is told, `handle_charge_limit` with a limit from 25 to 100
  -- makes it the maximum, leaves the minimum as it is and shows both. With any other limit it is an
  -- error, and the EC is in the state in which it was.
  pub handle_charge_limit-kept :
      (limit : ℕ) (s : K.driver.State)
      → (25 ≤ limit)
          × (limit ≤ 100)
          × (handle_charge_limit K.driver (some limit) s
              ≡ (ok (K.minimum s, limit), K.stored limit (K.minimum s) s))
        ⊎ (limit < 25 ⊎ 100 < limit)
          × ((e : EcError) × (handle_charge_limit K.driver (some limit) s ≡ (err e, s)))
  unfolding handle_charge_limit change_limit
  handle_charge_limit-kept limit s = elim (Bool-cases (ltb limit 25)) [
    | inl low ↦ inr (inl (ground arith), (too_low, rw (get_charge_limit-kept s, low) refl))
    | inr not_low ↦ elim (Bool-cases (ltb 100 limit)) [
      | inl high ↦
          inr (inr (ground arith), (too_high, rw (get_charge_limit-kept s, not_low, high) refl))
      | inr not_high ↦
          let min = K.minimum s in
          let s1 = K.stored limit min s in
          inl (
            ground arith,
            ground arith,
            rw
                (
                  get_charge_limit-kept s,
                  not_low,
                  not_high,
                  set_charge_limit-kept min limit s,
                  get_charge_limit-kept s1,
                  K.keeps_minimum s limit min,
                  K.keeps_maximum s limit min,
                )
                refl,
          )
    ]
  ]
