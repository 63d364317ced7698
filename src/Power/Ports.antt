-- ===== src/Power/Ports.antt =====
-- power.rs: the USB-C ports and the PD versions that the EC reports.
pub mod Versions
use framework_system.Base.{
  ℕ, zero, suc, ◌+◌, ◌/◌, List, [], ◌∷◌, ◌++◌, bit_and, Bool, true, false, not, ◌==◌, ◌||◌,
  if◌then◌else◌, Result, ok, err, panic, assert, index, ◌>>=◌, ◌>>◌,
}
use framework_system.Bytes.{from_le}
use framework_system.Ccgx.Versions.{BaseVersion, AppVersion, ControllerVersion, notebook}
use framework_system.Ec.Status.{EcError, EcResult}
use framework_system.Ec.Driver.{Driver, Ec, bind, pure, map_result}
use framework_system.Ec.Port.{debug_assert}
use framework_system.Ec.Commands.{send}
use framework_system.Ec.Requests.{usb_pd_power_info_request, read_pd_version_request}

pub data UsbChargingType : Type 0 where
  none pd type_c proprietary bc12_dcp bc12_cdp bc12_sdp other vbus unknown : UsbChargingType

pub data UsbPowerRoles : Type 0 where
  disconnected source sink sink_not_charging : UsbPowerRoles

pub record UsbChargeMeasures : Type 0 where
  pub voltage_max : ℕ
  pub voltage_now : ℕ
  pub current_max : ℕ
  pub current_lim : ℕ

pub record UsbPdPowerInfo : Type 0 where
  pub role : UsbPowerRoles
  pub charging_type : UsbChargingType
  pub dualrole : Bool
  pub meas : UsbChargeMeasures
  pub max_power : ℕ

-- An unknown role is a panic in a build with debug assertions.
unfoldable pub role_from : Bool → ℕ → EcResult UsbPowerRoles
role_from debug role =
    if role == 0
    then ok disconnected
    else if role == 1
    then ok source
    else if role == 2
    then ok sink
    else if role == 3
    then ok sink_not_charging
    else debug_assert debug false >> ok disconnected

unfoldable pub charging_type_from : Bool → ℕ → EcResult UsbChargingType
charging_type_from debug kind =
    if kind == 0
    then ok none
    else if kind == 1
    then ok pd
    else if kind == 2
    then ok type_c
    else if kind == 3
    then ok proprietary
    else if kind == 4
    then ok bc12_dcp
    else if kind == 5
    then ok bc12_cdp
    else if kind == 6
    then ok bc12_sdp
    else if kind == 7
    then ok other
    else if kind == 8
    then ok vbus
    else if kind == 9
    then ok unknown
    else debug_assert debug false >> ok unknown

-- `check_ac(ec, port)?.role == UsbPowerRoles::Sink`
abbrev is_sink : UsbPdPowerInfo → Bool
is_sink info = elim info.role [ sink ↦ true | _ ↦ false ]

-- The array of 8 bytes of one controller.
unfoldable pub parse_pd_ver {ℓ} : {E : Type ℓ} → List ℕ → Result E ControllerVersion
unfolding from_le
parse_pd_ver bytes = index bytes 3 >>= λ b3. index bytes 2 >>= λ b2. index bytes 0 >>= λ b0.
    index bytes 1 >>= λ b1. index bytes 7 >>= λ b7. index bytes 6 >>= λ b6. ok (record {
      base = record {
        major = bit_and (b3 / 16) 0xF;
        minor = bit_and b3 0xF;
        patch = b2;
        build_number = from_le (b0 ∷ b1 ∷ []);
      };
      app = record {
        application = notebook;
        major = bit_and (b7 / 16) 0xF;
        minor = bit_and b7 0xF;
        circuit = b6;
      };
    })

pub record MainPdVersions : Type 0 where
  pub controller01 : ControllerVersion
  pub controller23 : ControllerVersion

-- A result that is stored, errors included.
abbrev stored : {A : Type 0} → EcResult A → EcResult (EcResult A)
stored (ok a) = ok (ok a)
stored (err e) = ok (err e)
stored panic = panic

module _ (D : Driver) where
  unfoldable pub check_ac : Bool → ℕ → Ec D UsbPdPowerInfo
  unfolding role_from charging_type_from
  check_ac debug port = bind D (send D (usb_pd_power_info_request port)) λ info. pure D (
      role_from debug info.role >>= λ role.
      charging_type_from debug info.charging_type >>= λ charging_type. ok (record {
        role = role;
        charging_type = charging_type;
        dualrole = not (info.dualrole == 0);
        meas = record {
          voltage_max = info.meas.voltage_max;
          voltage_now = info.meas.voltage_now;
          current_max = info.meas.current_max;
          current_lim = info.meas.current_lim;
        };
        max_power = info.max_power;
      }))

  -- The ports from `port` on, with the rounds that are left.
  unfoldable pub pd_info_from : Bool → ℕ → ℕ → Ec D (List (EcResult UsbPdPowerInfo))
  unfolding check_ac
  pd_info_from debug zero port = pure D (ok [])
  pd_info_from debug (suc left) port =
      bind D (map_result D stored (check_ac debug port))
        λ info. bind D (pd_info_from debug left (port + 1)) λ infos. pure D (ok (info ∷ infos))

  unfoldable pub get_pd_info : Bool → ℕ → Ec D (List (EcResult UsbPdPowerInfo))
  unfolding pd_info_from
  get_pd_info debug ports = pd_info_from debug ports 0

  -- Right, and left.
  unfoldable pub is_charging : Bool → Ec D (Bool × Bool)
  unfolding check_ac
  is_charging debug = bind D (check_ac debug 0) λ port0. bind D (check_ac debug 1) λ port1.
      bind D (check_ac debug 2) λ port2.
        bind D (check_ac debug 3)
          λ port3. pure D (ok (is_sink port0 || is_sink port1, is_sink port2 || is_sink port3))

  unfoldable pub read_pd_version : Ec D MainPdVersions
  unfolding parse_pd_ver
  read_pd_version = bind D (send D read_pd_version_request) λ info. pure D (
      parse_pd_ver info.controller01 >>= λ c01. parse_pd_ver info.controller23 >>= λ c23.
      ok (record { controller01 = c01; controller23 = c23 }))
