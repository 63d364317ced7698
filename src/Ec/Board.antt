-- ===== src/Ec/Board.antt =====
-- chromium_ec/portio.rs on every kind of board: `init`, the transfers with and without a MEC, and the
-- calls of the driver; with `mec_init` of chromium_ec/portio_mec.rs.
pub mod Plain
pub mod Watched
pub mod Uses
pub mod Answers
pub mod Permissions
pub mod Reach
use framework_system.Base.{
  ℕ, ◌+◌, List, [], ◌∷◌, Bool, true, false, not, ltb, ◌==◌, if◌then◌else◌, Option, none, some, ok,
  err, panic, assert,
}
use framework_system.Base.Calls.{Call, pure, ◌≫=◌}
use framework_system.Ec.Status.{EcError, EcResult, device_error}
use framework_system.Ec.Select.{ec_memmap_size}
use framework_system.Ec.Packet.{checksum_buffers}
use framework_system.Ec.Port
use framework_system.Ec.Port.{
  host_data, host_cmd, host_args, command_protocol_3, response_len, unpack_response_header,
  check_status, check_header, debug_assert, request_packet,
}
use framework_system.Ec.Mec
use framework_system.Ec.Mec.{MecPort, address_register0, npc_memmap_offset}

pub data Initialized : Type 0 where
  not_yet succeeded failed : Initialized

-- The ports, and the calls of Linux that ask for permission to use them: `Uid::effective().is_root()`,
-- and `ioperm` for a number of ports from one on.
pub record Host : Type 1 where
  pub ports : MecPort
  pub is_root : ports.bytes.State → Bool
  pub ioperm : ℕ → ℕ → ports.bytes.State → ℕ × ports.bytes.State

-- `linux_pio` is the feature of the build, and `has_mec` the answer of the function of that name,
-- which panics where the platform is unknown. A panic ends the program.
module _ (H : Host) (linux_pio : Bool) (has_mec : EcResult Bool) where
  abbrev pub Session : Type 0
  Session = Initialized × H.ports.bytes.State

  abbrev pub Io : Type 0 → Type 0
  Io A = Call H.ports.bytes.State EcError A

  abbrev pub Driven : Type 0 → Type 0
  Driven A = Call Session EcError A

  abbrev pub on_ports : {A : Type 0} → Io A → Driven A
  on_ports m (i, s) = let (r, s1) = m s in (r, (i, s1))

  abbrev pub ask_ports : ℕ → ℕ → Io ℕ
  ask_ports from num s = (ok (H.ioperm from num s).0, (H.ioperm from num s).1)

  -- `assert_eq!(res, 0)`
  abbrev pub must_grant : ℕ → ℕ → Io (Unit {0})
  must_grant from num = ask_ports from num ≫= λ res. pure (assert (res == 0))

  unfoldable pub mec_init : Io (Unit {0})
  mec_init = ask_ports host_data 8 ≫= λ _. ask_ports address_register0 10 ≫= λ _. pure (ok tt)

  -- The ports of a board without a MEC. Only the first refusal is not a panic.
  unfoldable pub open_ports : Io Bool
  open_ports = ask_ports host_args (8 + 0xFF) ≫= λ res.
      if res == 0
      then (must_grant host_cmd 1 ≫= λ _. must_grant host_data 1 ≫= λ _.
          must_grant npc_memmap_offset ec_memmap_size ≫= λ _. pure (ok true))
      else pure (ok false)

  unfoldable pub request_access : Io Bool
  unfolding mec_init open_ports
  request_access =
      pure has_mec ≫= λ mec. if mec then (mec_init ≫= λ _. pure (ok true)) else open_ports

  -- What `init` notes for the next calls.
  abbrev pub noted : EcResult Bool × H.ports.bytes.State → EcResult Bool × Session
  noted (ok true, s) = (ok true, (succeeded, s))
  noted (ok false, s) = (ok false, (not_yet, s))
  noted (err e, s) = (err e, (not_yet, s))
  noted (panic, s) = (panic, (not_yet, s))

  -- `init` in a build with the feature `linux_pio`.
  unfoldable pub linux_init : Driven Bool
  unfolding request_access
  linux_init (failed, s) = (ok false, (failed, s))
  linux_init (succeeded, s) = (ok true, (succeeded, s))
  linux_init (not_yet, s) =
      if H.is_root s then noted (request_access s) else (ok false, (failed, s))

  unfoldable pub init : Driven Bool
  unfolding linux_init
  init w = if linux_pio then linux_init w else (ok true, w)

  -- `aligned` and `debug` as in Ec.Mec.
  module _ (aligned debug : Bool) where
    unfoldable pub transfer_write : List ℕ → Io (Unit {0})
    transfer_write buffer = pure has_mec ≫= λ mec.
        if mec then Mec.transfer_write H.ports aligned debug buffer else λ s.
        (ok tt, Port.transfer_write H.ports.bytes 0 buffer s)

    unfoldable pub transfer_read : ℕ → ℕ → ℕ → Io (List ℕ)
    transfer_read port address size = pure has_mec ≫= λ mec.
        if mec then Mec.transfer_read H.ports aligned debug address size else λ s.
        let (bytes, s1) = Port.transfer_read H.ports.bytes port address size s in (ok bytes, s1)

    unfoldable pub read_body : List ℕ → ℕ → Io (List ℕ)
    unfolding transfer_read
    read_body header data_len =
        if ltb 0 data_len
        then (transfer_read host_args response_len data_len ≫= λ bytes.
            pure (debug_assert debug (checksum_buffers (header ∷ bytes ∷ []) == 0)) ≫= λ _.
            pure (ok bytes))
        else pure (ok [])

    unfoldable pub receive : Io (List ℕ)
    unfolding transfer_read read_body
    receive s =
        let (res, s1) = H.ports.bytes.read host_data s in
        (pure (check_status res) ≫= λ _. transfer_read host_args 0 response_len ≫= λ header.
        pure (check_header (unpack_response_header header)) ≫= λ _.
        read_body header (unpack_response_header header).data_len)
          s1

    -- Calls that may not end.
    abbrev pub Waiting : Type 0 → Type 0
    Waiting A = Session → Option (EcResult A × Session)

    abbrev pub now : {A : Type 0} → Driven A → Waiting A
    now m w = some (m w)

    abbrev pub and_then : {A B : Type 0} → Waiting A → (A → Waiting B) → Waiting B
    and_then m f w = continue f (m w)
      where
        continue :
            {A B : Type 0}
            → (A → Waiting B)
            → Option (EcResult A × Session)
            → Option (EcResult B × Session)
        continue f none = none
        continue f (some (ok a, w')) = f a w'
        continue f (some (err e, w')) = some (err e, w')
        continue f (some (panic, w')) = some (panic, w')

    -- The loop, on fuel.
    abbrev pub ask_status : ℕ → Waiting (Unit {0})
    ask_status fuel (i, s) = elim (Port.wait_for_ready H.ports.bytes fuel s) [
      | none ↦ none
      | some s1 ↦ some (ok tt, (i, s1))
    ]

    unfoldable pub wait_for_ready : ℕ → Waiting (Unit {0})
    unfolding init
    wait_for_ready fuel =
        and_then (now init) λ started. if started then ask_status fuel else now (pure (ok tt))

    -- The packet is written when the EC is ready, and the response read when it is again.
    unfoldable pub exchange : ℕ → List ℕ → Waiting (List ℕ)
    unfolding wait_for_ready transfer_write receive
    exchange fuel packet = and_then (wait_for_ready fuel) λ _.
        and_then (now (on_ports (transfer_write packet))) λ _.
          and_then (now (on_ports λ s. (ok tt, H.ports.bytes.write host_cmd command_protocol_3 s)))
            λ _. and_then (wait_for_ready fuel) λ _. now (on_ports receive)

    unfoldable pub send_command : ℕ → ℕ → ℕ → List ℕ → Waiting (List ℕ)
    unfolding init exchange
    send_command fuel command command_version payload = and_then (now init) λ started.
        if started
        then and_then (now (pure (request_packet H.ports.bytes command command_version payload)))
            (exchange fuel)
        else now (pure (err (device_error "Failed to initialize" [])))

    unfoldable pub read_memory : ℕ → ℕ → Driven (List ℕ)
    unfolding init
    read_memory offset size = init ≫= λ started.
        if started
        then (pure has_mec ≫= λ mec.
            on_ports (Mec.read_memory H.ports aligned debug true mec offset size))
        else pure (err (device_error "Failed to initialize" []))
