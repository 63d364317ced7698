-- ===== src/Capsule/Headers.antt =====
-- Which capsule headers are accepted.
use native.Mathlib.Decide.{dec_le}
use framework_system.Base.{
  ℕ, ◌%◌, ◌^◌, ◌≤◌, ◌<◌, ◌≡◌, arith, List, length, take, true, ok, slice_prefix, slice_out_of_range,
  ap, subst, take-drop-take, Bool-cases, inl, inr,
}
use framework_system.Bytes.{field, field-take}
use framework_system.Guid.{from_bytes}
use framework_system.Capsule.{EfiCapsuleHeader, read_capsule_header, is_valid, parse_capsule_header}

is_valid-bounds :
    (h : EfiCapsuleHeader) (buffer : List ℕ)
    → is_valid h buffer ≡ true
    → (h.capsule_image_size ≡ length buffer % 2 ^ 32)
      × (28 ≤ h.header_size)
      × (h.header_size ≤ h.capsule_image_size)
unfolding is_valid
is_valid-bounds h buffer e = ground arith

-- A header that stands at the start of a buffer and names its size.
pub record IsHeaderOf (buffer : List ℕ) (h : EfiCapsuleHeader) : Type 0 where
  pub image_size : h.capsule_image_size ≡ length buffer
  pub large : 28 ≤ h.header_size
  pub inside : h.header_size ≤ length buffer
  pub guid_at : h.capsule_guid ≡ from_bytes (take 16 buffer)
  pub header_size_at : h.header_size ≡ field buffer 16 4
  pub flags_at : h.flags ≡ field buffer 20 4
  pub image_size_at : h.capsule_image_size ≡ field buffer 24 4

valid-IsHeaderOf :
    (buffer : List ℕ)
    → length buffer < 2 ^ 32
    → is_valid (read_capsule_header (take 28 buffer)) buffer ≡ true
    → IsHeaderOf buffer (read_capsule_header (take 28 buffer))
unfolding read_capsule_header
valid-IsHeaderOf buffer small valid =
    let h = read_capsule_header (take 28 buffer) in
    let bounds = is_valid-bounds h buffer valid in
    record {
      image_size = omega (arith, bounds.0);
      large = bounds.1;
      inside = omega (arith, bounds.0, bounds.2);
      guid_at = ap from_bytes (take-drop-take 0 16 28 buffer (omega arith));
      header_size_at = field-take buffer 28 16 4 (omega arith);
      flags_at = field-take buffer 28 20 4 (omega arith);
      image_size_at = field-take buffer 28 24 4 (omega arith);
    }

-- The header of a capsule of less than 2^32 bytes is accepted only if it names the size of the
-- capsule, and its own size lies between 28 bytes and the size of the capsule. It holds the GUID
-- and the numbers that stand in the buffer.
pub parse_capsule_header-IsHeaderOf :
    (buffer : List ℕ) (h : EfiCapsuleHeader)
    → length buffer < 2 ^ 32
    → parse_capsule_header buffer ≡ ok h
    → IsHeaderOf buffer h
unfolding parse_capsule_header
parse_capsule_header-IsHeaderOf buffer h small e = elim (dec_le 28 (length buffer)) [
  | no short ↦ let p = rw (slice_out_of_range buffer 0 28 (omega arith)) at e in cc
  | yes long ↦
      let raw = read_capsule_header (take 28 buffer) in
      let p = rw (slice_prefix buffer 28 long) at e in
      elim (Bool-cases (is_valid raw buffer)) [
        | inr invalid ↦ let q = rw invalid at p in cc
        | inl valid ↦
            let q = rw valid at p in
            let same : raw ≡ h = cc in
            subst (IsHeaderOf buffer) same (valid-IsHeaderOf buffer small valid)
      ]
]
