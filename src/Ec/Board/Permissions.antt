-- ===== src/Ec/Board/Permissions.antt =====
-- chromium_ec/portio.rs on Linux and a board without a MEC: the driver asks for its ports before it
-- uses them.
use framework_system.Base.{
  ℕ, ◌+◌, Bool, true, false, leb, ltb, ◌&&◌, ◌||◌, ◌==◌, ok, err, panic, ◌≡◌, refl, inl, inr, arith,
  Bool-cases,
}
use framework_system.Ec.Status.{EcResult}
use framework_system.Ec.Board.{
  Host, Initialized, not_yet, succeeded, failed, noted, init, linux_init, request_access,
  open_ports,
}
use framework_system.Ec.Board.Watched.{Watched, watched, Needed, HasPorts}

-- The four ranges together hold all that is needed.
granted_all :
    (port : ℕ)
    → Needed port
    → (before : Bool)
    → ((leb 0xE00 port && ltb port (0xE00 + 255))
        || ((leb 0x200 port && ltb port (0x200 + 1))
            || ((leb 0x204 port && ltb port (0x204 + 1))
                || ((leb 0x800 port && ltb port (0x800 + 263)) || before))))
      ≡ true
granted_all port needed before = ground arith

module _ (H : Host) where
  abbrev pub Ports : Type 0
  Ports = Watched H.ports.bytes.State

  -- The answer of the kernel to a request for ports, and the state behind it.
  abbrev refused : ℕ → ℕ → Ports → Bool
  refused from num w = (H.ioperm from num w.inner).0 == 0

  abbrev asked : ℕ → ℕ → Ports → Ports
  asked from num w = ((watched H).ioperm from num w).1

  open_ports-HasPorts :
      (w : Ports)
      → w.clean ≡ true
      → ((open_ports (watched H) true (ok false) w).1.clean ≡ true)
        × ((open_ports (watched H) true (ok false) w).0 ≡ ok true
            → HasPorts (open_ports (watched H) true (ok false) w).1)
  unfolding open_ports
  open_ports-HasPorts w clean =
      let w1 = asked 0x800 263 w in
      let w2 = asked 0x204 1 w1 in
      let w3 = asked 0x200 1 w2 in
      elim (Bool-cases (refused 0x800 263 w)) [
        | inr e1 ↦ rw (open_ports, e1) (clean, λ h. cc)
        | inl e1 ↦ elim (Bool-cases (refused 0x204 1 w1)) [
          | inr e2 ↦ rw (open_ports, e1, e2) (clean, λ h. cc)
          | inl e2 ↦ elim (Bool-cases (refused 0x200 1 w2)) [
            | inr e3 ↦ rw (open_ports, e1, e2, e3) (clean, λ h. cc)
            | inl e3 ↦ elim (Bool-cases (refused 0xE00 255 w3)) [
              | inr e4 ↦ rw (open_ports, e1, e2, e3, e4) (clean, λ h. cc)
              | inl e4 ↦
                  rw (open_ports, e1, e2, e3, e4)
                    (clean, λ h port needed. granted_all port needed (w.granted port))
            ]
          ]
        ]
      ]

  -- The driver has not noted a success without the permissions.
  abbrev pub IsSound : Initialized × Ports → Type 0
  IsSound w = (w.1.clean ≡ true) × (w.0 ≡ succeeded → HasPorts w.1)

  abbrev pub plain_init : Initialized × Ports → EcResult Bool × (Initialized × Ports)
  plain_init = init (watched H) true (ok false)

  noted-IsSound :
      (x : EcResult Bool × Ports)
      → x.1.clean ≡ true
      → (x.0 ≡ ok true → HasPorts x.1)
      → IsSound (noted (watched H) true (ok false) x).1
        × ((noted (watched H) true (ok false) x).0 ≡ ok true
            → (noted (watched H) true (ok false) x).1.0 ≡ succeeded)
  noted-IsSound (ok true, w) clean has = ((clean, λ e. has refl), λ e. refl)
  noted-IsSound (ok false, w) clean has = ((clean, λ e. cc), λ e. cc)
  noted-IsSound (err e, w) clean has = ((clean, λ e. cc), λ e. cc)
  noted-IsSound (panic, w) clean has = ((clean, λ e. cc), λ e. cc)

  pub init-IsSound :
      (w : Initialized × Ports)
      → IsSound w
      → IsSound (plain_init w).1 × ((plain_init w).0 ≡ ok true → (plain_init w).1.0 ≡ succeeded)
  unfolding init linux_init request_access
  init-IsSound (failed, w) (clean, has) = ((clean, has), λ e. cc)
  init-IsSound (succeeded, w) sound = (sound, λ e. refl)
  init-IsSound (not_yet, w) (clean, has) = elim (Bool-cases (H.is_root w.inner)) [
    | inl root ↦
        let (still, opened) = open_ports-HasPorts w clean in
        rw (root) (noted-IsSound (open_ports (watched H) true (ok false) w) still opened)
    | inr other ↦ rw (other) ((clean, λ e. cc), λ e. cc)
  ]
