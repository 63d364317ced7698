-- ===== src/Power/Thermal.antt =====
-- power.rs: temperatures and fans.
use Prim.Native.String.{String}
use framework_system.Base.{
  ℕ, ◌+◌, ◌-◌, ◌<◌, ◌≤◌, List, [], ◌∷◌, ◌++◌, Bool, true, leb, ◌==◌, if◌then◌else◌, Option, some,
  Maybe, ok, panic, index, ◌>>=◌, Returns, arith, ◌↔◌,
}
use framework_system.Bytes.{from_le}
use framework_system.Ccgx.Device.{
  Platform, intel_gen11, intel_gen12, intel_gen13, framework13_amd, framework16,
}
use framework_system.Ec.Driver.{Driver, bind, pure}
use framework_system.Power.{Reading, must_read}

abbrev pub memmap_temp_sensor : ℕ
memmap_temp_sensor = 0x00

abbrev pub memmap_fan : ℕ
memmap_fan = 0x10

pub data TempSensor : Type 0 where
  degrees : ℕ → TempSensor
  not_present error not_powered not_calibrated : TempSensor

-- `TempSensor::from(u8)`: `t - 73` on 8 bits, in a build with or without overflow checks.
unfoldable pub temp_sensor_from : Bool → ℕ → Maybe TempSensor
temp_sensor_from debug t =
    if t == 0xFF
    then ok not_present
    else if t == 0xFE
    then ok error
    else if t == 0xFD
    then ok not_powered
    else if t == 0xFC
    then ok not_calibrated
    else if leb 73 t
    then ok (degrees (t - 73))
    else if debug
    then panic
    else ok (degrees (t + 256 - 73))

abbrev intel_sensors : List String
intel_sensors =
    "F75303_Local" ∷ "F75303_CPU" ∷ "F75303_DDR" ∷ "Battery" ∷ "PECI" ∷ "F57397_VCCGT" ∷ []

abbrev amd_sensors : List String
amd_sensors = "F75303_Local" ∷ "F75303_CPU" ∷ "F75303_DDR" ∷ "APU" ∷ []

abbrev gpu_sensors : List String
gpu_sensors = "dGPU VR" ∷ "dGPU VRAM" ∷ "dGPU AMB" ∷ "dGPU temp" ∷ []

abbrev other_sensors : List String
other_sensors =
    "Temp 0" ∷ "Temp 1" ∷ "Temp 2" ∷ "Temp 3" ∷ "Temp 4" ∷ "Temp 5" ∷ "Temp 6" ∷ "Temp 7" ∷ []

-- The sensors of a platform, in the order of their bytes.
unfoldable pub sensor_names : Option Platform → List String
sensor_names (some intel_gen11) = intel_sensors
sensor_names (some intel_gen12) = intel_sensors
sensor_names (some intel_gen13) = intel_sensors
sensor_names (some framework13_amd) = amd_sensors
sensor_names (some framework16) = amd_sensors ++ gpu_sensors
sensor_names _ = other_sensors

-- Each sensor with its reading; `i` is the number of the next byte.
unfoldable pub sensor_lines : Bool → List ℕ → ℕ → List String → Maybe (List (String × TempSensor))
unfolding temp_sensor_from
sensor_lines debug temps i [] = ok []
sensor_lines debug temps i (name ∷ names) =
    let rest = sensor_lines debug temps (i + 1) names in
    index temps i >>= temp_sensor_from debug >>= λ t. rest >>= λ lines. ok ((name, t) ∷ lines)

module _ (D : Driver) where
  -- The result stands for what is printed: the sensors, and the speed of the fan.
  unfoldable pub print_thermal : Bool → Option Platform → Reading D (List (String × TempSensor) × ℕ)
  unfolding sensor_names sensor_lines from_le
  print_thermal debug platform = bind D (must_read D memmap_temp_sensor 0x0F) λ temps.
      bind D (must_read D memmap_fan 0x08) λ fans.
        bind D (pure D (sensor_lines debug temps 0 (sensor_names platform))) λ lines.
          pure D
            (index fans 0 >>= λ low. index fans 1 >>= λ high. ok (lines, from_le (low ∷ high ∷ [])))

-- The readings below 73 that stand for temperatures under 0 °C: a panic in a build with overflow
-- checks. All other bytes are decoded.
pub temp_sensor_from-Returns_iff : (t : ℕ) → t < 256 → Returns (temp_sensor_from true t) ↔ (73 ≤ t)
unfolding temp_sensor_from
temp_sensor_from-Returns_iff t h = ground arith
