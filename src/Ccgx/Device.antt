-- ===== src/Ccgx/Device.antt =====
-- ccgx/device.rs: the PD controllers, which are read over I2C through the EC. The platform
-- (util.rs) is the one that the configuration holds.
pub mod Reading
pub mod Firmware
use framework_system.Base.{
  ℕ, zero, suc, ◌+◌, ◌-◌, ◌*◌, ◌/◌, ◌^◌, min, bit_and, List, [], ◌∷◌, ◌++◌, length, take, drop,
  Bool, ltb, not, ◌==◌, ◌||◌, if◌then◌else◌, Option, none, some, Result, ok, err, panic, assert,
  ◌>>=◌, ◌>>◌, index, slice, slice_from,
}
use framework_system.Bytes.{to_le, from_le}
use framework_system.Ec.Status.{EcResult, device_error}
use framework_system.Ec.Driver.{Driver, Ec, bind, pure}
use framework_system.Ec.Select.{add_u16}
use framework_system.Ccgx.Versions.{
  FwMode, boot_loader, backup_fw, main_fw, fw_mode_try_from, ControllerVersion, ControllerFirmwares,
  base_version_from, app_version_from,
}

pub data Platform : Type 0 where
  intel_gen11 intel_gen12 intel_gen13 intel_core_ultra1 framework13_amd framework16 : Platform
  generic_framework : ℕ × ℕ → ℕ × ℕ → Bool → Platform

pub data PdPort : Type 0 where
  left01 right23 : PdPort

unfoldable pub i2c_address : Platform → PdPort → ℕ
i2c_address (generic_framework (left, right) ports mec) left01 = left
i2c_address (generic_framework (left, right) ports mec) right23 = right
i2c_address framework13_amd left01 = 0x42
i2c_address framework16 left01 = 0x42
i2c_address framework13_amd right23 = 0x40
i2c_address framework16 right23 = 0x40
i2c_address _ left01 = 0x08
i2c_address _ right23 = 0x40

unfoldable pub i2c_port : Platform → PdPort → ℕ
i2c_port (generic_framework addrs (left, right) mec) left01 = left
i2c_port (generic_framework addrs (left, right) mec) right23 = right
i2c_port intel_gen11 _ = 6
i2c_port intel_gen12 left01 = 6
i2c_port intel_gen13 left01 = 6
i2c_port intel_gen12 right23 = 7
i2c_port intel_gen13 right23 = 7
i2c_port _ left01 = 1
i2c_port _ right23 = 2

abbrev pub i2c_passthrough_command : ℕ
i2c_passthrough_command = 0x9e

abbrev pub max_i2c_chunk : ℕ
max_i2c_chunk = 128

abbrev pub i2c_read_flag : ℕ
i2c_read_flag = 2 ^ 15

pub data ControlRegister : Type 0 where
  device_mode silicon_id boot_loader_version firmware1_version firmware2_version : ControlRegister

abbrev pub register_address : ControlRegister → ℕ
register_address device_mode = 0
register_address silicon_id = 2
register_address boot_loader_version = 0x10
register_address firmware1_version = 0x18
register_address firmware2_version = 0x20

-- `EcI2cPassthruResponse::is_successful`
unfoldable pub is_successful : ℕ → EcResult (Unit {0})
is_successful i2c_status =
    if not (bit_and i2c_status 1 == 0)
    then err (device_error "I2C Transfer not acknowledged" [])
    else if not (bit_and i2c_status 2 == 0)
    then err (device_error "I2C Transfer timeout" [])
    else assert (i2c_status == 0)

unfoldable pub decode_flash_row_size {ℓ} : {E : Type ℓ} → ℕ → Result E ℕ
decode_flash_row_size mode_byte =
    let bits = bit_and mode_byte 0b00110000 / 16 in
    if bits == 0 then ok 128 else if bits == 1 then ok 256 else if bits == 3 then ok 64 else panic

-- The parameters of a passthrough: the port, two messages (the address to write with the size of the
-- register address, and the address to read with how much to read), and the register address.
unfoldable pub passthru_buffer : ℕ → ℕ → ℕ → ℕ → ℕ → List ℕ
passthru_buffer port address read_address addr len =
    port
    ∷ 2
    ∷ (to_le 2 address ++ (to_le 2 2 ++ (to_le 2 read_address ++ (to_le 2 len ++ to_le 2 addr))))

abbrev pub version_register : FwMode → ControlRegister
version_register boot_loader = boot_loader_version
version_register backup_fw = firmware1_version
version_register main_fw = firmware2_version

module _ (D : Driver) (platform : Platform) (port : PdPort) where
  -- The status and the data of the response. The address with the flag, and below the address in a
  -- round, are sums of 16 bits, which panic or wrap around; `debug` says which.
  unfoldable pub i2c_read : Bool → ℕ → ℕ → Ec D (ℕ × List ℕ)
  i2c_read debug addr len =
      if ltb max_i2c_chunk len
      then pure D (err (device_error "i2c_read too long. Must be <128, is: {}" (len ∷ [])))
      else bind D (pure D (add_u16 debug (i2c_address platform port) i2c_read_flag)) λ read_address.
        bind D
          (D.send_command i2c_passthrough_command 0 (
            passthru_buffer (i2c_port platform port) (i2c_address platform port) read_address addr
              len))
          λ response. pure D (do
            i2c_status ← index response 0
            messages ← index response 1
            bytes ← slice_from response 2
            assert (not debug || (messages == 2 || messages == 0))
            ok (i2c_status, bytes))

  -- The data of a successful chunk of `ccgx_read`. The error stands for its text; the text of the
  -- transfer, which the code puts into it, is left out.
  abbrev pub wrapped : ℕ × List ℕ → EcResult (List ℕ)
  wrapped (i2c_status, bytes) = elim (is_successful i2c_status) [
    | ok done ↦ ok bytes
    | err e ↦ err (device_error "I2C read was not successful: {:?}" [])
    | panic ↦ panic
  ]

  -- The loop of `ccgx_read`, with the data so far, which is shorter than `len` where its length is
  -- cast to 16 bits. The fuel bounds the rounds; `none` is a loop that
  -- has not ended.
  unfoldable pub ccgx_read :
      Bool → ℕ → ℕ → ℕ → List ℕ → D.State → Option (EcResult (List ℕ) × D.State)
  ccgx_read debug zero addr len so_far s =
      if ltb (length so_far) len then none else some (ok so_far, s)
  ccgx_read debug (suc fuel) addr len so_far s =
      let again =
        λ (bytes : List ℕ) (s' : D.State). ccgx_read debug fuel addr len (so_far ++ bytes) s' in
      if ltb (length so_far) len
      then next again (
          bind D
            (bind D (pure D (add_u16 debug addr (length so_far)))
              λ offset. i2c_read debug offset (min max_i2c_chunk (len - length so_far)))
            (λ response. pure D (wrapped response)) s)
      else some (ok so_far, s)
    where
      next :
          (List ℕ → D.State → Option (EcResult (List ℕ) × D.State))
          → EcResult (List ℕ) × D.State
          → Option (EcResult (List ℕ) × D.State)
      next again (ok bytes, s') = again bytes s'
      next again (err e, s') = some (err e, s')
      next again (panic, s') = some (panic, s')

  -- A computation over `ccgx_read`, which may not have ended.
  abbrev pub Waiting : Type 0 → Type 0
  Waiting A = D.State → Option (EcResult A × D.State)

  abbrev pub and_then : {A B : Type 0} → Waiting A → (A → Waiting B) → Waiting B
  and_then m f s = continue f (m s)
    where
      continue :
          {A B : Type 0}
          → (A → Waiting B)
          → Option (EcResult A × D.State)
          → Option (EcResult B × D.State)
      continue f none = none
      continue f (some (ok a, s')) = f a s'
      continue f (some (err e, s')) = some (err e, s')
      continue f (some (panic, s')) = some (panic, s')

  abbrev pub return : {A : Type 0} → EcResult A → Waiting A
  return r s = some (r, s)

  -- With the length check of the builds without the Windows driver.
  unfoldable pub get_silicon_id : Bool → ℕ → Waiting ℕ
  get_silicon_id debug fuel =
      and_then (ccgx_read debug fuel (register_address silicon_id) 2 []) λ bytes. return (do
        assert (length bytes == 2)
        b0 ← index bytes 0
        b1 ← index bytes 1
        ok (from_le (b0 ∷ b1 ∷ [])))

  unfoldable pub decode_device_info : Bool → ℕ → EcResult (FwMode × ℕ)
  decode_device_info debug byte = elim (fw_mode_try_from (bit_and byte 0b00000011)) [
    | none ↦ err (device_error "FW Mode invalid: {}" (bit_and byte 0b00000011 ∷ []))
    | some mode ↦ decode_flash_row_size byte >>= λ row_size.
        assert (not debug || not (bit_and byte 0b10000000 == 0)) >> ok (mode, row_size)
  ]

  unfoldable pub get_device_info : Bool → ℕ → Waiting (FwMode × ℕ)
  get_device_info debug fuel =
      and_then (ccgx_read debug fuel (register_address device_mode) 1 [])
        λ bytes. return (index bytes 0 >>= decode_device_info debug)

  unfoldable pub get_single_fw_ver : Bool → ℕ → FwMode → Waiting ControllerVersion
  get_single_fw_ver debug fuel mode =
      and_then (ccgx_read debug fuel (register_address (version_register mode)) 8 []) λ bytes.
        return (do
          low ← slice bytes 0 4
          base ← base_version_from low
          high ← slice_from bytes 4
          app ← app_version_from high
          ok (record { base = base; app = app }))

  unfoldable pub get_fw_versions : Bool → ℕ → Waiting ControllerFirmwares
  get_fw_versions debug fuel = and_then (get_device_info debug fuel) λ info.
      and_then (get_single_fw_ver debug fuel boot_loader) λ bootloader.
        and_then (get_single_fw_ver debug fuel backup_fw) λ backup.
          and_then (get_single_fw_ver debug fuel main_fw) λ main. return (
            ok (record {
              active_fw = info.0;
              bootloader = bootloader;
              backup = backup;
              main = main;
            }))
