-- ===== src/Ec/Board/Watched.antt =====
-- What a driver does with ports that ask for a permission, as Linux does: chromium_ec/portio.rs on a
-- board without a MEC, over ports that note each use without one.
use framework_system.Base.{ℕ, ◌+◌, ◌≤◌, ◌<◌, Bool, true, ◌&&◌, ◌||◌, ltb, leb, ◌==◌, ◌≡◌, refl, ◌⊎◌}
use framework_system.Ec.Board.{Host}
use framework_system.Ec.Packet.{}

abbrev pub in_range : ℕ → ℕ → ℕ → Bool
in_range from num port = leb from port && ltb port (from + num)

-- Which ports may be used, and whether all ports that were used might be.
pub record Watched (S : Type 0) : Type 0 where
  pub inner : S
  pub granted : ℕ → Bool
  pub clean : Bool

abbrev pub used : {S : Type 0} → ℕ → S → Watched S → Watched S
used port s w = record { inner = s; granted = w.granted; clean = w.clean && w.granted port }

abbrev pub watched : Host → Host
watched H = record {
  ports = record {
    bytes = record {
      State = Watched H.ports.bytes.State;
      read = λ port w.
          ((H.ports.bytes.read port w.inner).0, used port (H.ports.bytes.read port w.inner).1 w);
      write = λ port byte w. used port (H.ports.bytes.write port byte w.inner) w;
    };
    read_u16 = λ port w. (
      (H.ports.read_u16 port w.inner).0,
      used port (H.ports.read_u16 port w.inner).1 (used (port + 1) w.inner w),
    );
    write_u16 =
        λ port word w. used port (H.ports.write_u16 port word w.inner) (used (port + 1) w.inner w);
  };
  is_root = λ w. H.is_root w.inner;
  ioperm = λ from num w.
      let res = (H.ioperm from num w.inner).0 in
      (
        res,
        record {
          inner = (H.ioperm from num w.inner).1;
          granted = λ port. (res == 0 && in_range from num port) || w.granted port;
          clean = w.clean;
        },
      );
}

-- What `init` asks for: the window of the host commands, the two ports beside it, and the memory map.
abbrev pub Needed : ℕ → Type 0
Needed port =
    ((0x800 ≤ port) × (port < 0x800 + 263))
    ⊎ ((port ≡ 0x204) ⊎ ((port ≡ 0x200) ⊎ ((0xE00 ≤ port) × (port < 0xE00 + 255))))

abbrev pub HasPorts : {S : Type 0} → Watched S → Type 0
HasPorts w = (port : ℕ) → Needed port → w.granted port ≡ true

abbrev pub MayUse : {S : Type 0} → Watched S → Type 0
MayUse w = (w.clean ≡ true) × HasPorts w

pub used-MayUse :
    {S : Type 0} (port : ℕ) (s : S) (w : Watched S)
    → Needed port
    → MayUse w
    → MayUse (used port s w)
used-MayUse port s w n (clean, has) = (rw (clean, has port n) refl, has)
