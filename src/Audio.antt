-- ===== src/Audio.antt =====
-- framework_lib/src/audio_card.rs: the firmware versions of the audio cards on USB.
pub mod Answers
use framework_system.Base.{
  ℕ, zero, suc, ◌+◌, ◌*◌, List, [], ◌∷◌, ◌++◌, replicate, take, Bool, ◌==◌, ◌||◌, not,
  if◌then◌else◌, Option, none, some, Maybe, Result, ok, err, panic,
}
use framework_system.Bytes.{to_le, from_le, field}

abbrev pub framework_vid : ℕ
framework_vid = 0x32AC

abbrev pub audio_card_pid : ℕ
audio_card_pid = 0x0010

abbrev pub cape_data_len : ℕ
cape_data_len = 13

abbrev pub cape_module_id : ℕ
cape_module_id = 0xB32D2300

abbrev pub cape_report_id : ℕ
cape_report_id = 0x0001

-- `CapeCommand::GetVersion`
abbrev pub get_version : ℕ
get_version = 0x0103

-- The rusb crate, with the kernel's USB devices behind it.
pub record Usb : Type 1 where
  pub State : Type 0
  pub Device : Type 0
  -- The devices; a failure of the list or of a descriptor is a panic.
  pub devices : Maybe (List Device)
  pub vendor_id : Device → ℕ
  pub product_id : Device → ℕ
  -- The numbers of the interfaces, with the classes of their descriptors.
  pub interfaces : Device → List (ℕ × List ℕ)
  -- Opening a device, and claiming an interface, also from the driver of the kernel; `err tt` is an
  -- error.
  pub open_device : Device → State → Maybe (Unit {0}) × State
  pub claim : Device → ℕ → State → Maybe (Unit {0}) × State
  -- A control request for the interface, with the value of the request; for reading, the number of
  -- bytes and what stands in the buffer behind the call.
  pub write_control : Device → ℕ → ℕ → ℕ → List ℕ → State → Maybe ℕ × State
  pub read_control : Device → ℕ → ℕ → ℕ → List ℕ → State → (Maybe ℕ × List ℕ) × State

-- The bytes of a `HidCapeMessage`: the number of the report, and the message.
abbrev pub cape_message : ℕ → List ℕ → List ℕ
cape_message command_id words =
    to_le 2 cape_report_id
    ++ (to_le 2 cape_data_len ++ (to_le 2 command_id ++ (to_le 4 cape_module_id ++ words)))

unfoldable pub cape_request : List ℕ
unfolding to_le
cape_request = cape_message get_version (replicate 52 0)

-- `size_of::<HidCapeMessage>()`
abbrev pub cape_message_len : ℕ
cape_message_len = 62

-- `msg.command_id` and `msg.data[i]`
unfoldable pub command_of : List ℕ → ℕ
unfolding field
command_of message = field message 4 2

unfoldable pub data_of : List ℕ → ℕ → ℕ
unfolding field
data_of message i = field message (10 + 4 * i) 4

-- The four numbers that are printed.
abbrev pub version_of : List ℕ → List ℕ
version_of message =
    data_of message 0 ∷ data_of message 1 ∷ data_of message 2 ∷ data_of message 3 ∷ []

abbrev has_class : ℕ → List ℕ → Bool
has_class class [] = Bool.false
has_class class (c ∷ classes) = c == class || has_class class classes

-- `find_hid_interface`
unfoldable pub find_hid_interface : List (ℕ × List ℕ) → Option ℕ
find_hid_interface [] = none
find_hid_interface ((number, classes) ∷ interfaces) =
    let rest = find_hid_interface interfaces in if has_class 0x03 classes then some number else rest

module _ (W : Usb) where
  -- `set_hid_report` and `get_hid_report`, for the report 1: the request, and the value with the type
  -- of the report in its high byte.
  unfoldable pub set_hid_report : W.Device → ℕ → List ℕ → W.State → Maybe ℕ × W.State
  set_hid_report device index message s = W.write_control device 0x09 0x0201 index message s

  unfoldable pub get_hid_report : W.Device → ℕ → List ℕ → W.State → (Maybe ℕ × List ℕ) × W.State
  get_hid_report device index buffer s = W.read_control device 0x01 0x0101 index buffer s

  -- What the loop does with a written request: the response is read, in full.
  abbrev pub read_back : W.Device → ℕ → List ℕ → Maybe ℕ × W.State → Maybe (List ℕ) × W.State
  read_back device index response (ok written, s) =
      received (get_hid_report device index response s)
    where
      received : (Maybe ℕ × List ℕ) × W.State → Maybe (List ℕ) × W.State
      received ((ok size, message), s') = (if size == 62 then ok message else panic, s')
      received ((err e, message), s') = (panic, s')
      received ((panic, message), s') = (panic, s')
  read_back device index response (err e, s) = (panic, s)
  read_back device index response (panic, s) = (panic, s)

  abbrev pub go_on :
      (List ℕ → W.State → Option (Maybe (List ℕ) × W.State))
      → Maybe (List ℕ) × W.State
      → Option (Maybe (List ℕ) × W.State)
  go_on again (ok message, s) = again message s
  go_on again (err e, s) = some (err e, s)
  go_on again (panic, s) = some (panic, s)

  -- The endless loop, with the last response. The fuel bounds the rounds; `none` is a loop that has
  -- not ended.
  unfoldable pub poll : ℕ → W.Device → ℕ → List ℕ → W.State → Option (Maybe (List ℕ) × W.State)
  unfolding command_of set_hid_report get_hid_report cape_request
  poll zero device index response s =
      if command_of response == 0x8103 then some (ok response, s) else none
  poll (suc fuel) device index response s =
      if command_of response == 0x8103
      then some (ok response, s)
      else go_on (poll fuel device index)
          (read_back device index response (set_hid_report device index cape_request s))

  abbrev pub Act : Type 0 → Type 0
  Act A = W.State → Option (Maybe A × W.State)

  abbrev pub and_then : {A B : Type 0} → Act A → (A → Act B) → Act B
  and_then m f s = continue f (m s)
    where
      continue :
          {A B : Type 0} → (A → Act B) → Option (Maybe A × W.State) → Option (Maybe B × W.State)
      continue f none = none
      continue f (some (ok a, s')) = f a s'
      continue f (some (err e, s')) = some (err e, s')
      continue f (some (panic, s')) = some (panic, s')

  abbrev pub return : {A : Type 0} → Maybe A → Act A
  return r s = some (r, s)

  -- `unwrap` on a call of the crate.
  abbrev pub must : {A : Type 0} → (W.State → Maybe A × W.State) → Act A
  must m s = unwrapped (m s)
    where
      unwrapped : {A : Type 0} → Maybe A × W.State → Option (Maybe A × W.State)
      unwrapped (ok a, s') = some (ok a, s')
      unwrapped (err e, s') = some (panic, s')
      unwrapped (panic, s') = some (panic, s')

  -- The version of a card; `none` is a device that is passed over.
  unfoldable pub check_device : ℕ → W.Device → Act (Option (List ℕ))
  unfolding poll cape_request data_of find_hid_interface
  check_device fuel device =
      if not (W.vendor_id device == framework_vid) || not (W.product_id device == audio_card_pid)
      then return (ok none)
      else and_then (must (W.open_device device)) λ _.
        elim (find_hid_interface (W.interfaces device)) [
          | none ↦ return (ok none)
          | some index ↦ and_then (must (W.claim device index)) λ _.
              and_then (poll fuel device index cape_request)
                λ response. return (ok (some (version_of response)))
        ]

  abbrev add_version : Option (List ℕ) → List (List ℕ) → List (List ℕ)
  add_version none versions = versions
  add_version (some version) versions = version ∷ versions

  -- The loop over the devices, and the versions that it prints.
  unfoldable pub check_devices : ℕ → List W.Device → Act (List (List ℕ))
  unfolding check_device
  check_devices fuel [] = return (ok [])
  check_devices fuel (device ∷ devices) = and_then (check_device fuel device) λ version.
      and_then (check_devices fuel devices) λ versions. return (ok (add_version version versions))

  unfoldable pub check_synaptics_fw_version : ℕ → Act (List (List ℕ))
  unfolding check_devices
  check_synaptics_fw_version fuel = elim W.devices [
    | ok devices ↦ check_devices fuel devices
    | err _ ↦ return panic
    | panic ↦ return panic
  ]
