-- ===== src/Guid/Bytes.antt =====
-- The two byte conversions of a `Guid` undo each other.
use framework_system.Base.{ℕ, ◌+◌, ◌^◌, ◌<◌, ◌≤◌, ◌≡◌, sym, ap, ◌∙◌, arith}
use framework_system.Base.{List, length, take, drop, length-take-drop, take-append-drop}
use framework_system.Base.{take-of_length_le, All-take, All-drop, take-drop-append, length-drop}
use framework_system.Bytes.{IsByte, IsBytes, from_le, to_le, to_le-from_le}
use framework_system.Bytes.{from_le-to_le_u16, from_le-to_le_u32}
use framework_system.Guid.{Guid, from_bytes, to_bytes}

-- The ranges that the field types of the struct guarantee.
pub record IsGuid (g : Guid) : Type 0 where
  pub a_fits : g.a < 2 ^ 32
  pub b_fits : g.b < 2 ^ 16
  pub c_fits : g.c < 2 ^ 16
  pub d_length : length g.d ≡ 8
  pub d_bytes : IsBytes g.d

-- Writing a GUID to 16 bytes and reading it back gives the same GUID.
pub from_bytes-to_bytes : (g : Guid) → IsGuid g → from_bytes (to_bytes g) ≡ g
unfolding from_bytes to_bytes to_le
from_bytes-to_bytes g h = λ i. record {
  a = from_le-to_le_u32 g.a h.a_fits i;
  b = from_le-to_le_u16 g.b h.b_fits i;
  c = from_le-to_le_u16 g.c h.c_fits i;
  d = take-of_length_le 8 g.d (omega (arith, h.d_length)) i;
}

part :
    (xs : List ℕ) (lo n : ℕ)
    → IsBytes xs
    → n + lo ≤ length xs
    → to_le n (from_le (take n (drop lo xs))) ≡ take n (drop lo xs)
part xs lo n h k =
    let e : length (take n (drop lo xs)) ≡ n = length-take-drop xs lo n (omega arith) in
    ap (λ (m : ℕ). to_le m (from_le (take n (drop lo xs)))) (sym e)
    ∙ to_le-from_le (take n (drop lo xs)) (All-take IsByte n _ (All-drop IsByte lo xs h))

-- Reading a GUID from any 16 bytes and writing it back gives the same bytes.
pub to_bytes-from_bytes :
    (bytes : List ℕ) → length bytes ≡ 16 → IsBytes bytes → to_bytes (from_bytes bytes) ≡ bytes
unfolding from_bytes to_bytes
to_bytes-from_bytes bytes e h =
    rw
      (
        part bytes 0 4 h (omega (arith, e)),
        part bytes 4 2 h (omega (arith, e)),
        part bytes 6 2 h (omega (arith, e)),
        take-of_length_le 8 (drop 8 bytes) (omega (arith, length-drop 8 bytes)),
      )
      (rw (take-drop-append 6 2 bytes, take-drop-append 4 2 bytes) (take-append-drop 4 bytes))
