-- ===== src/Power/Readings.antt =====
-- The readings of power.rs over an EC whose memory map can be read.
use framework_system.Base.{
  ℕ, ◌+◌, ◌*◌, ◌/◌, ◌%◌, ◌^◌, ◌≤◌, ◌<◌, List, [], ◌∷◌, length, take, drop, Bool, true, false, not,
  ◌==◌, ◌&&◌, ltb, lt→ltb, ◌≡◌, refl, ap, ok, err, panic, Maybe, index, some, none, arith,
  length-take-drop, length-drop, if◌then◌else◌, ◌>>=◌, Bool-cases, inl, inr, if_same,
}
use framework_system.Bytes.{field, from_le}
use framework_system.Ec.Driver.{Driver, bind, pure}
use framework_system.Power.Lossy.{from_utf8_lossy, remove_zeros}
use framework_system.Power.{
  PowerInfo, BatteryInformation, read_u32, read_byte, read_string, power_info, is_set,
  charge_percentage_of, is_standalone, standalone_mode, standalone_result, mode_result,
}

-- An EC with a memory map that reading does not change.
pub record Mapped : Type 1 where
  pub driver : Driver
  pub memory : List ℕ
  pub size : 0x84 ≤ length memory
  pub reads :
      (s : driver.State) (offset n : ℕ)
      → offset + n ≤ length memory
      → driver.read_memory offset n s ≡ (ok (take n (drop offset memory)), s)

-- The text of 8 bytes at an offset.
abbrev pub text_at : List ℕ → ℕ → List ℕ
text_at memory offset = remove_zeros (from_utf8_lossy (take 8 (drop offset memory)))

index-take_one :
    (xs : List ℕ) → 1 ≤ length xs → index {E = Unit {0}} (take 1 xs) 0 ≡ ok (from_le (take 1 xs))
unfolding index from_le
index-take_one [] h = absurd (omega arith)
index-take_one (x ∷ xs) h = ap ok (omega arith)

module _ (M : Mapped) where
  index-field :
      (a : ℕ)
      → a + 1 ≤ length M.memory
      → index {E = Unit {0}} (take 1 (drop a M.memory)) 0 ≡ ok (field M.memory a 1)
  unfolding field
  index-field a h = index-take_one (drop a M.memory) (omega (arith, length-drop a M.memory))

  read_u32-field :
      (debug : Bool) (a : ℕ) (s : M.driver.State)
      → a + 4 ≤ length M.memory
      → read_u32 M.driver debug a s ≡ (ok (field M.memory a 4), s)
  unfolding read_u32 field
  read_u32-field debug a s h =
      rw (M.reads s a 4 h, length-take-drop M.memory a 4 (omega arith)) refl

  read_byte-field :
      (a : ℕ) (s : M.driver.State)
      → a + 1 ≤ length M.memory
      → read_byte M.driver a s ≡ (ok (field M.memory a 1), s)
  unfolding read_byte
  read_byte-field a s h = rw (M.reads s a 1 h, index-field a h) refl

  read_string-text_at :
      (a : ℕ) (s : M.driver.State)
      → a + 8 ≤ length M.memory
      → read_string M.driver a s ≡ (ok (text_at M.memory a), s)
  unfolding read_string
  read_string-text_at a s h = rw (M.reads s a 8 h) refl

  -- Each field of the battery, at its place in the memory map.
  abbrev pub battery_of : BatteryInformation
  battery_of = record {
    present_voltage = field M.memory 0x40 4;
    present_rate = field M.memory 0x44 4;
    remaining_capacity = field M.memory 0x48 4;
    battery_count = field M.memory 0x4D 1;
    current_battery_index = field M.memory 0x4E 1;
    design_capacity = field M.memory 0x50 4;
    design_voltage = field M.memory 0x54 4;
    last_full_charge_capacity = field M.memory 0x58 4;
    cycle_count = field M.memory 0x5C 4;
    charge_percentage = (100 * field M.memory 0x48 4) / field M.memory 0x58 4;
    manufacturer = text_at M.memory 0x60;
    model_number = text_at M.memory 0x68;
    serial_number = text_at M.memory 0x70;
    battery_type = text_at M.memory 0x78;
    discharging = is_set (field M.memory 0x4C 1) 0x04;
    charging = is_set (field M.memory 0x4C 1) 0x08;
    level_critical = is_set (field M.memory 0x4C 1) 0x10;
  }

and-not-true : (a b : Bool) → b ≡ true → a && not b ≡ false
and-not-true true b h = rw h refl
and-not-true false b h = refl

-- A percentage is computed, if there is a capacity to divide by and the product fits 32 bits.
percentage_in_range :
    (debug : Bool) (cap lfcc : ℕ)
    → (lfcc == 0) ≡ false
    → 100 * cap < 2 ^ 32
    → charge_percentage_of {E = Unit {0}} debug cap lfcc ≡ ok ((100 * cap) / lfcc)
unfolding charge_percentage_of
percentage_in_range debug cap lfcc h k =
    let e : (100 * cap) % 2 ^ 32 ≡ 100 * cap = omega arith in
    rw (and-not-true debug (ltb (100 * cap) (2 ^ 32)) (lt→ltb (100 * cap) (2 ^ 32) k), h, e) refl

percentage_panics :
    (debug : Bool) (cap lfcc : ℕ)
    → (lfcc == 0) ≡ true
    → charge_percentage_of {E = Unit {0}} debug cap lfcc ≡ panic
unfolding charge_percentage_of
percentage_panics debug cap lfcc h = rw h (if_same (debug && not (ltb (100 * cap) (2 ^ 32))) panic)

module _ (M : Mapped) where
  abbrev flags : ℕ
  flags = field M.memory 0x4C 1

  abbrev capacity : ℕ
  capacity = field M.memory 0x48 4

  abbrev full_capacity : ℕ
  full_capacity = field M.memory 0x58 4

  -- The last step: the present flag, and the percentage.
  abbrev finished : Bool → Maybe ℕ → M.driver.State → Maybe PowerInfo × M.driver.State
  finished present percentage =
      bind M.driver
        (pure M.driver (
          if present
          then (percentage >>= λ p. ok (some (record (battery_of M) { charge_percentage = p })))
          else ok none))
        λ battery. pure M.driver (ok (record { ac_present = is_set flags 0x01; battery = battery }))

  power_info-finished :
      (debug : Bool) (s : M.driver.State)
      → power_info M.driver debug s
        ≡ finished (is_set flags 0x02) (charge_percentage_of debug capacity full_capacity) s
  unfolding power_info
  power_info-finished debug s =
      let long = M.size in
      rw
        (
          M.reads s 0x4C 1 (omega arith),
          index-field M 0x4C (omega arith),
          read_u32-field M debug 0x58 s (omega arith),
          read_u32-field M debug 0x48 s (omega arith),
          read_u32-field M debug 0x40 s (omega arith),
          read_u32-field M debug 0x44 s (omega arith),
          read_u32-field M debug 0x48 s (omega arith),
          read_byte-field M 0x4D s (omega arith),
          read_byte-field M 0x4E s (omega arith),
          read_u32-field M debug 0x50 s (omega arith),
          read_u32-field M debug 0x54 s (omega arith),
          read_u32-field M debug 0x5C s (omega arith),
          read_string-text_at M 0x60 s (omega arith),
          read_string-text_at M 0x68 s (omega arith),
          read_string-text_at M 0x70 s (omega arith),
          read_string-text_at M 0x78 s (omega arith),
        )
        refl

  -- Over an EC whose memory map can be read, and with a capacity that fits 32 bits when it is
  -- multiplied by 100: without a battery, `power_info` says only whether AC is present. With a
  -- battery, its fields are read at their places, and a full capacity of 0 is a panic.
  pub power_info-Mapped :
      (debug : Bool) (s : M.driver.State)
      → 100 * capacity < 2 ^ 32
      → (power_info M.driver debug s).0 ≡ (
          if not (is_set flags 0x02)
          then ok (record { ac_present = is_set flags 0x01; battery = none })
          else if full_capacity == 0
          then panic
          else ok (record { ac_present = is_set flags 0x01; battery = some (battery_of M) }))
  power_info-Mapped debug s small =
      rw (power_info-finished debug s) (elim (Bool-cases (is_set flags 0x02)) [
        | inl present ↦ elim (Bool-cases (full_capacity == 0)) [
          | inl e ↦ rw (present, e, percentage_panics debug capacity full_capacity e) refl
          | inr e ↦ rw (present, e, percentage_in_range debug capacity full_capacity e small) refl
        ]
        | inr absent ↦ rw absent refl
      ])

module _ (D : Driver) where
  mode-standalone : (r : Maybe PowerInfo) → standalone_result false r ≡ mode_result r
  mode-standalone (ok info) = refl
  mode-standalone (err absent) = refl
  mode-standalone panic = refl

  -- In a build without debug assertions, `is_standalone` and `standalone_mode` do the same.
  is_standalone-standalone_mode :
      (s : D.State) → is_standalone D false s ≡ standalone_mode D false s
  unfolding is_standalone standalone_mode
  is_standalone-standalone_mode s =
      ap (λ r. (r, (power_info D false s).1)) (mode-standalone (power_info D false s).0)
