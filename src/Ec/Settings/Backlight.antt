-- ===== src/Ec/Settings/Backlight.antt =====
-- The keyboard backlight (chromium_ec/mod.rs), over an EC that keeps the duty it is told.
use framework_system.Base.{
  ℕ, ◌/◌, ◌%◌, ◌*◌, ◌≤◌, ◌<◌, ◌^◌, [], ◌∷◌, ◌++◌, ◌≡◌, refl, ok, true, Bool, false, arith, le→leb,
  lt→ltb, not, ◌||◌,
}
use framework_system.Bytes.{to_le, field, from_le}
use framework_system.Ec.Driver.{
  Driver, bind, send_request, send_command_extra, send_command_vec_extra,
}
use framework_system.Ec.Commands.{send, command_code}
use framework_system.Ec.Settings.{backlight_duty, set_keyboard_backlight, get_keyboard_backlight}

pub record DutyKeeper : Type 1 where
  pub driver : Driver
  pub duty : driver.State → ℕ
  pub stored : ℕ → driver.State → driver.State
  pub answers_set :
      (s : driver.State) (d : ℕ)
      → d < 2 ^ 16
      → driver.send_command 0x25 0 ((to_le 2 d ++ (1 ∷ 0 ∷ [])) ++ []) s ≡ (ok [], stored d s)
  pub answers_get :
      (s : driver.State) → driver.send_command 0x26 0 (1 ∷ 0 ∷ []) s ≡ (ok (to_le 2 (duty s)), s)
  pub keeps : (s : driver.State) (d : ℕ) → duty (stored d s) ≡ d

duty_in_range :
    (debug : Bool) (percent : ℕ) → percent ≤ 100 → backlight_duty debug percent ≡ ok (percent * 655)
unfolding backlight_duty
duty_in_range debug percent h = rw (lt→ltb (percent * 655) (2 ^ 16) (omega arith)) refl

read_duty : (d : ℕ) → d < 2 ^ 16 → field (to_le 2 d) 0 2 ≡ d
unfolding field from_le to_le
read_duty d h = omega arith

not-or-true : (debug : Bool) → not debug || true ≡ true
not-or-true true = refl
not-or-true false = refl

module _ (K : DutyKeeper) where
  -- Over an EC that keeps the duty it is told, a backlight of at most 100 percent is set without an
  -- error or a panic, and is what is read back, in builds with and without debug assertions.
  pub get_keyboard_backlight-set_keyboard_backlight :
      (debug : Bool) (percent : ℕ) (s : K.driver.State)
      → percent ≤ 100
      → (bind K.driver
          (set_keyboard_backlight K.driver debug percent)
          (λ _. get_keyboard_backlight K.driver)
          s).0
        ≡ ok percent
  unfolding set_keyboard_backlight get_keyboard_backlight send send_request send_command_extra
      send_command_vec_extra command_code to_le
  get_keyboard_backlight-set_keyboard_backlight debug percent s h =
      let d = percent * 655 in
      let s1 = K.stored d s in
      let back : (d / 655) % 2 ^ 8 ≡ percent = omega arith in
      rw
        (
          le→leb percent 100 h,
          not-or-true debug,
          duty_in_range debug percent h,
          K.answers_set s d (omega arith),
          K.answers_get s1,
          K.keeps s d,
          read_duty d (omega arith),
          back,
        )
        refl
