-- ===== src/Ec/Commands.antt =====
-- The commands of the EC (chromium_ec/command.rs), and a typed request: the trait `EcRequest` with
-- the bytes of its struct.
use framework_system.Base.{ℕ, List, [], ok}
use framework_system.Ec.Driver.{Driver, Ec, bind, pure, send_request, send_command_vec_extra}

pub data EcCommands : Type 0 where
  get_version get_build_info read_mem_map get_cmd_versions : EcCommands
  flash_info flash_read flash_write flash_erase flash_protect : EcCommands
  pwm_get_keyboard_backlight pwm_set_keyboard_backlight : EcCommands
  pwm_set_fan_duty pwm_set_duty pwm_get_duty gpio_get i2c_passthrough : EcCommands
  console_snapshot console_read get_features reboot reboot_ec usb_pd_power_info : EcCommands
  flash_notified charge_limit_control fp_led_level_control : EcCommands
  chassis_open_check chassis_intrusion acpi_notify read_pd_version : EcCommands
  standalone_mode privacy_switches_check_mode chassis_counter check_deck_state : EcCommands
  get_simple_version get_active_charge_pd_chip uefi_app_mode uefi_app_btn_status : EcCommands
  expansion_bay_status get_hw_diag : EcCommands

-- `EcCommands as u16`
unfoldable pub command_code : EcCommands → ℕ
command_code get_version = 0x02
command_code get_build_info = 0x04
command_code read_mem_map = 0x07
command_code get_cmd_versions = 0x08
command_code flash_info = 0x10
command_code flash_read = 0x11
command_code flash_write = 0x12
command_code flash_erase = 0x13
command_code flash_protect = 0x15
command_code pwm_get_keyboard_backlight = 0x22
command_code pwm_set_keyboard_backlight = 0x23
command_code pwm_set_fan_duty = 0x24
command_code pwm_set_duty = 0x25
command_code pwm_get_duty = 0x26
command_code gpio_get = 0x93
command_code i2c_passthrough = 0x9E
command_code console_snapshot = 0x97
command_code console_read = 0x98
command_code get_features = 0x0D
command_code reboot = 0xD1
command_code reboot_ec = 0xD2
command_code usb_pd_power_info = 0x103
command_code flash_notified = 0x3E01
command_code charge_limit_control = 0x3E03
command_code fp_led_level_control = 0x3E0E
command_code chassis_open_check = 0x3E0F
command_code chassis_intrusion = 0x3E09
command_code acpi_notify = 0xE10
command_code read_pd_version = 0x3E11
command_code standalone_mode = 0x3E13
command_code privacy_switches_check_mode = 0x3E14
command_code chassis_counter = 0x3E15
command_code check_deck_state = 0x3E16
command_code get_simple_version = 0x3E17
command_code get_active_charge_pd_chip = 0x3E18
command_code uefi_app_mode = 0x3E19
command_code uefi_app_btn_status = 0x3E1A
command_code expansion_bay_status = 0x3E1B
command_code get_hw_diag = 0x3E1C

-- A request with a response of the type `R`: `params` are the bytes of the request's struct, and
-- `decode` reads the response's struct.
pub record EcRequest (R : Type 0) : Type 0 where
  pub command_id : EcCommands
  pub command_version : ℕ
  pub params : List ℕ
  pub response_size : ℕ
  pub decode : List ℕ → R

module _ (D : Driver) where
  -- `EcRequestRaw::send_command`
  unfoldable pub send : {R : Type 0} → EcRequest R → Ec D R
  unfolding command_code
  send request =
      bind D
        (send_request D (command_code request.command_id) request.command_version
          request.response_size request.params)
        λ response. pure D (ok (request.decode response))

  -- `EcRequestRaw::send_command_vec`: a response of any size.
  unfoldable pub send_vec : {R : Type 0} → EcRequest R → Ec D (List ℕ)
  unfolding command_code
  send_vec request =
      send_command_vec_extra D (command_code request.command_id) request.command_version
        request.params []
