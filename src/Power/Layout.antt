-- ===== src/Power/Layout.antt =====
-- power.rs: where the readings stand in the EC's memory map, and the flags of the battery.
use framework_system.Base.{ℕ}

abbrev pub text_max : ℕ
text_max = 8

abbrev pub batt_volt : ℕ
batt_volt = 0x40

abbrev pub batt_rate : ℕ
batt_rate = 0x44

abbrev pub batt_cap : ℕ
batt_cap = 0x48

abbrev pub batt_flag : ℕ
batt_flag = 0x4C

abbrev pub batt_count : ℕ
batt_count = 0x4D

abbrev pub batt_index : ℕ
batt_index = 0x4E

abbrev pub batt_dcap : ℕ
batt_dcap = 0x50

abbrev pub batt_dvlt : ℕ
batt_dvlt = 0x54

abbrev pub batt_lfcc : ℕ
batt_lfcc = 0x58

abbrev pub batt_ccnt : ℕ
batt_ccnt = 0x5C

abbrev pub batt_mfgr : ℕ
batt_mfgr = 0x60

abbrev pub batt_model : ℕ
batt_model = 0x68

abbrev pub batt_serial : ℕ
batt_serial = 0x70

abbrev pub batt_type : ℕ
batt_type = 0x78

abbrev pub memmap_als : ℕ
memmap_als = 0x80

-- The flags at `batt_flag`.
abbrev pub ac_present_flag : ℕ
ac_present_flag = 0x01

abbrev pub batt_present_flag : ℕ
batt_present_flag = 0x02

abbrev pub discharging_flag : ℕ
discharging_flag = 0x04

abbrev pub charging_flag : ℕ
charging_flag = 0x08

abbrev pub level_critical_flag : ℕ
level_critical_flag = 0x10
