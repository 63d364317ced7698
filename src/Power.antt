-- ===== src/Power.antt =====
-- power.rs: what the EC's memory map says about power supply and battery.
mod Lossy
pub mod Layout
pub mod Readings
pub mod Thermal
pub mod Ports
pub use framework_system.Power.Layout.{
  text_max, batt_volt, batt_rate, batt_cap, batt_flag, batt_count, batt_index, batt_dcap, batt_dvlt,
  batt_lfcc, batt_ccnt, batt_mfgr, batt_model, batt_serial, batt_type, memmap_als, ac_present_flag,
  batt_present_flag, discharging_flag, charging_flag, level_critical_flag,
}
use framework_system.Base.{
  ℕ, ◌+◌, ◌*◌, ◌/◌, ◌%◌, ◌^◌, List, [], ◌∷◌, length, bit_and, Bool, true, false, not, ◌==◌, ◌&&◌,
  ◌||◌, ltb, if◌then◌else◌, Option, none, some, Maybe, Result, ok, err, panic, assert, index, ◌>>=◌,
  ◌>>◌,
}
use framework_system.Bytes.{from_le}
use framework_system.Ec.Driver.{Driver, Call, bind, pure, map_result}
use framework_system.Power.Lossy.{from_utf8_lossy, remove_zeros}

pub record BatteryInformation : Type 0 where
  pub present_voltage : ℕ
  pub present_rate : ℕ
  pub remaining_capacity : ℕ
  pub battery_count : ℕ
  pub current_battery_index : ℕ
  pub design_capacity : ℕ
  pub design_voltage : ℕ
  pub last_full_charge_capacity : ℕ
  pub cycle_count : ℕ
  pub charge_percentage : ℕ
  pub manufacturer : List ℕ
  pub model_number : List ℕ
  pub serial_number : List ℕ
  pub battery_type : List ℕ
  pub discharging : Bool
  pub charging : Bool
  pub level_critical : Bool

pub record PowerInfo : Type 0 where
  pub ac_present : Bool
  pub battery : Option BatteryInformation

pub record ReducedBatteryInformation : Type 0 where
  pub cycle_count : ℕ
  pub charge_percentage : ℕ
  pub charging : Bool

pub record ReducedPowerInfo : Type 0 where
  pub ac_present : Bool
  pub battery : Option ReducedBatteryInformation

-- `ReducedPowerInfo::from`
unfoldable pub reduced_power_info : PowerInfo → ReducedPowerInfo
reduced_power_info val = record {
  ac_present = val.ac_present;
  battery = elim val.battery [
    | none ↦ none
    | some b ↦ some (record {
      cycle_count = b.cycle_count;
      charge_percentage = b.charge_percentage;
      charging = b.charging;
    })
  ];
}

-- `0 != (battery_flag & flag)`
unfoldable pub is_set : ℕ → ℕ → Bool
is_set battery_flag flag = not (bit_and battery_flag flag == 0)

-- `(100 * battery_cap) / battery_lfcc` on 32 bits, in a build with or without overflow checks.
unfoldable pub charge_percentage_of {ℓ} : {E : Type ℓ} → Bool → ℕ → ℕ → Result E ℕ
charge_percentage_of debug cap lfcc =
    let product = 100 * cap in
    if debug && not (ltb product (2 ^ 32))
    then panic
    else if lfcc == 0
    then panic
    else ok ((product % 2 ^ 32) / lfcc)

abbrev pub is_some {ℓ} : {A : Type ℓ} → Option A → Bool
is_some none = false
is_some (some a) = true

-- `unwrap` on the result of a call.
abbrev pub unwrapped : {A : Type 0} → Maybe A → Maybe A
unwrapped (ok a) = ok a
unwrapped (err absent) = panic
unwrapped panic = panic

-- Without a reading, no battery is the safe default. With debug assertions, a machine without a
-- battery must be on AC.
abbrev pub standalone_result : Bool → Maybe PowerInfo → Maybe Bool
standalone_result debug (ok info) =
    assert (not debug || (is_some info.battery || info.ac_present))
    >> ok (not (is_some info.battery))
standalone_result debug (err absent) = ok true
standalone_result debug panic = panic

abbrev pub mode_result : Maybe PowerInfo → Maybe Bool
mode_result (ok info) = ok (not (is_some info.battery))
mode_result (err absent) = ok true
mode_result panic = panic

-- 0 if there is a battery.
abbrev pub exit_code : Maybe PowerInfo → Maybe ℕ
exit_code (ok info) = ok (if is_some info.battery then 0 else 1)
exit_code (err absent) = ok 1
exit_code panic = panic

module _ (D : Driver) where
  -- A call that returns a value, an absent value or panics.
  abbrev pub Reading : Type 0 → Type 0
  Reading A = Call D (Unit {0}) A

  -- `ec.read_memory(..).unwrap()`
  abbrev pub must_read : ℕ → ℕ → Reading (List ℕ)
  must_read address size = map_result D unwrapped (D.read_memory address size)

  unfoldable pub read_string : ℕ → Reading (List ℕ)
  unfolding from_utf8_lossy remove_zeros
  read_string address =
      bind D (must_read address text_max)
        λ bytes. pure D (ok (remove_zeros (from_utf8_lossy bytes)))

  unfoldable pub read_byte : ℕ → Reading ℕ
  read_byte address = bind D (must_read address 1) λ bytes. pure D (index bytes 0)

  -- A wrong length is a panic in a build with debug assertions.
  unfoldable pub read_u32 : Bool → ℕ → Reading ℕ
  unfolding from_le
  read_u32 debug address = bind D (must_read address 4) λ bytes.
      pure D (if not (length bytes == 4) then if debug then panic else ok 0 else ok (from_le bytes))

  unfoldable pub get_als_reading : Reading ℕ
  unfolding from_le
  get_als_reading = bind D (D.read_memory memmap_als 0x04) λ als. pure D (
      index als 0 >>= λ b0. index als 1 >>= λ b1.
      index als 2 >>= λ b2. index als 3 >>= λ b3. ok (from_le (b0 ∷ b1 ∷ b2 ∷ b3 ∷ [])))

  unfoldable pub power_info : Bool → Reading PowerInfo
  unfolding read_u32 read_byte read_string charge_percentage_of is_set
  power_info debug = bind D (D.read_memory batt_flag 1) λ flags.
      bind D (pure D (index flags 0)) λ battery_flag. bind D (read_u32 debug batt_lfcc) λ lfcc.
        bind D (read_u32 debug batt_cap) λ cap. bind D (read_u32 debug batt_volt) λ volt.
          bind D (read_u32 debug batt_rate) λ rate. bind D (read_u32 debug batt_cap) λ unused.
            bind D (read_byte batt_count) λ count. bind D (read_byte batt_index) λ current.
              bind D (read_u32 debug batt_dcap) λ dcap. bind D (read_u32 debug batt_dvlt) λ dvlt.
                bind D (read_u32 debug batt_ccnt) λ cycles. bind D (read_string batt_mfgr) λ mfgr.
                  bind D (read_string batt_model) λ model.
                    bind D (read_string batt_serial) λ serial.
                      bind D (read_string batt_type) λ kind.
                        bind D
                          (pure D (
                            if is_set battery_flag batt_present_flag
                            then (charge_percentage_of debug cap lfcc >>= λ percentage. ok (
                                some (record {
                                  present_voltage = volt;
                                  present_rate = rate;
                                  remaining_capacity = cap;
                                  battery_count = count;
                                  current_battery_index = current;
                                  design_capacity = dcap;
                                  design_voltage = dvlt;
                                  last_full_charge_capacity = lfcc;
                                  cycle_count = cycles;
                                  charge_percentage = percentage;
                                  manufacturer = mfgr;
                                  model_number = model;
                                  serial_number = serial;
                                  battery_type = kind;
                                  discharging = is_set battery_flag discharging_flag;
                                  charging = is_set battery_flag charging_flag;
                                  level_critical = is_set battery_flag level_critical_flag;
                                })))
                            else ok none))
                          λ battery. pure D (
                            ok (record {
                              ac_present = is_set battery_flag ac_present_flag;
                              battery = battery;
                            }))

  unfoldable pub is_standalone : Bool → Reading Bool
  is_standalone debug = map_result D (standalone_result debug) (power_info debug)

  unfoldable pub standalone_mode : Bool → Reading Bool
  standalone_mode debug = map_result D mode_result (power_info debug)

  unfoldable pub get_and_print_power_info : Bool → Reading ℕ
  get_and_print_power_info debug = map_result D exit_code (power_info debug)

-- No battery, or AC and more than 20 percent.
unfoldable pub check_update_ready : PowerInfo → Bool
check_update_ready info = elim info.battery [
  | none ↦ true
  | some b ↦ info.ac_present && ltb 20 b.charge_percentage
]
