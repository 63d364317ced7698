-- ===== src/Tests/Power.antt =====
-- A memory map with a battery, and the PD versions of one controller.
use framework_system.Base.{
  ℕ, ◌+◌, ◌*◌, ◌≤◌, ◌<◌, ◌^◌, List, [], ◌∷◌, ◌++◌, length, take, drop, replicate, ◌≡◌, refl, ok,
  err, panic, some, none, leb, le→leb, if◌then◌else◌, arith, true, not, ◌==◌,
}
use framework_system.Bytes.{field, from_le, to_le}
use framework_system.Ec.Status.{EcError, device_error}
use framework_system.Ec.Driver.{Driver}
use framework_system.Power.{power_info, is_set}
use framework_system.Power.Readings.{Mapped, battery_of, power_info-Mapped}
use framework_system.Power.Ports.{parse_pd_ver}
use framework_system.Power.Ports.Versions.{
  parse_pd_ver-controller_version_from, controller_version_from,
}

-- Voltage, rate, capacity 2000, the flags for AC and a battery; and a full capacity of 4000.
abbrev battery_values : List ℕ
battery_values =
    to_le 4 15400
    ++ to_le 4 100
    ++ to_le 4 2000
    ++ (0x03 ∷ 1 ∷ 0 ∷ 0 ∷ [])
    ++ to_le 4 4100
    ++ to_le 4 15480
    ++ to_le 4 4000
    ++ to_le 4 12

abbrev memory : List ℕ
memory = replicate 0x40 0 ++ battery_values ++ replicate 0xA0 0x41

abbrev board : Driver
board = record {
  State = Unit {0};
  send_command = λ command version payload s. (err (device_error "unknown" []), s);
  read_memory = λ offset n s.
      if leb (offset + n) (length memory)
      then (ok (take n (drop offset memory)), s)
      else (err tt, s);
}

reads :
    (s : Unit {0}) (offset n : ℕ)
    → offset + n ≤ length memory
    → board.read_memory offset n s ≡ (ok (take n (drop offset memory)), s)
unfolding to_le
reads s offset n h = rw (le→leb (offset + n) (length memory) h) refl

long : 0x84 ≤ length memory
unfolding to_le
long = omega arith

abbrev mapped : Mapped
mapped = record { driver = board; memory = memory; size = long; reads = reads }

small : 100 * field memory 0x48 4 < 2 ^ 32
unfolding field from_le to_le
small = omega arith

power_info-Mapped_example : (power_info board true tt).0 ≡ (
    if not (is_set (field memory 0x4C 1) 0x02)
    then ok (record { ac_present = is_set (field memory 0x4C 1) 0x01; battery = none })
    else if field memory 0x58 4 == 0
    then panic
    else ok (record {
      ac_present = is_set (field memory 0x4C 1) 0x01;
      battery = some (battery_of mapped);
    }))
power_info-Mapped_example = power_info-Mapped mapped true tt small

parse_pd_ver-controller_version_from_example :
    parse_pd_ver {E = EcError} (0x10 ∷ 0x00 ∷ 0x03 ∷ 0x31 ∷ b'b' ∷ b'n' ∷ 0x05 ∷ 0x42 ∷ [])
    ≡ controller_version_from (0x10 ∷ 0x00 ∷ 0x03 ∷ 0x31 ∷ []) (b'b' ∷ b'n' ∷ 0x05 ∷ 0x42 ∷ [])
parse_pd_ver-controller_version_from_example =
    parse_pd_ver-controller_version_from 0x10 0x00 0x03 0x31 0x05 0x42 (omega arith) (omega arith)
