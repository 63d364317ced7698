-- ===== src/Ec/Driver.antt =====
-- The calls that reach the EC: the trait `CrosEcDriver` (chromium_ec/mod.rs) as an interface, and
-- how requests and responses are framed (chromium_ec/command.rs). The driver's state stands for the
-- EC and the bus to it.
use framework_system.Base.{
  ℕ, List, [], ◌∷◌, ◌++◌, length, Maybe, Result, ok, err, panic, ◌==◌, not, if◌then◌else◌,
}
use framework_system.Ec.Status.{device_error, EcError, EcResult}

pub record Driver : Type 1 where
  pub State : Type 0
  -- The command, its version and the payload.
  pub send_command : ℕ → ℕ → List ℕ → State → EcResult (List ℕ) × State
  -- The offset and the length in the memory map; `err tt` is `None`.
  pub read_memory : ℕ → ℕ → State → Maybe (List ℕ) × State

abbrev pub flash_info_command : ℕ
flash_info_command = 0x10

abbrev pub flash_read_command : ℕ
flash_read_command = 0x11

abbrev pub flash_write_command : ℕ
flash_write_command = 0x12

abbrev pub flash_erase_command : ℕ
flash_erase_command = 0x13

abbrev pub flash_notified_command : ℕ
flash_notified_command = 0x3E01

module _ (D : Driver) where
  -- A call with a result, an error or a panic, and the driver's state after it.
  abbrev pub Call : Type 0 → Type 0 → Type 0
  Call E A = D.State → Result E A × D.State

  abbrev pub Ec : Type 0 → Type 0
  Ec A = Call EcError A

  -- A computation that does not reach the driver.
  abbrev pub pure : {E A : Type 0} → Result E A → Call E A
  pure r s = (r, s)

  abbrev pub bind : {E A B : Type 0} → Call E A → (A → Call E B) → Call E B
  bind m f s = continue f (m s)
    where
      continue : {E A B : Type 0} → (A → Call E B) → Result E A × D.State → Result E B × D.State
      continue f (ok a, s') = f a s'
      continue f (err e, s') = (err e, s')
      continue f (panic, s') = (panic, s')

  -- What another function makes of the result of a call.
  abbrev pub map_result : {E F A B : Type 0} → (Result E A → Result F B) → Call E A → Call F B
  map_result f m s = rewrap f (m s)
    where
      rewrap :
          {E F A B : Type 0}
          → (Result E A → Result F B)
          → Result E A × D.State
          → Result F B × D.State
      rewrap f (r, s') = (f r, s')

  -- `send_command_vec_extra`: the struct's bytes, with more behind them.
  unfoldable pub send_command_vec_extra : ℕ → ℕ → List ℕ → List ℕ → Ec (List ℕ)
  send_command_vec_extra command version params extra_data =
      D.send_command command version (params ++ extra_data)

  -- `send_command_extra`: the response must have the size of its struct.
  unfoldable pub send_command_extra : ℕ → ℕ → ℕ → List ℕ → List ℕ → Ec (List ℕ)
  unfolding send_command_vec_extra
  send_command_extra command version response_size params extra_data =
      bind (send_command_vec_extra command version params extra_data) λ response. pure (
        if not (length response == response_size)
        then err (
            device_error "Returned data size ({}) is not the expted size: {}"
              (length response ∷ response_size ∷ []))
        else ok response)

  -- `send_command`
  unfoldable pub send_request : ℕ → ℕ → ℕ → List ℕ → Ec (List ℕ)
  unfolding send_command_extra
  send_request command version response_size params =
      send_command_extra command version response_size params []
