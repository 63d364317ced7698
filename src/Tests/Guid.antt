-- ===== src/Tests/Guid.antt =====
-- GUIDs of the capsule headers and ESRT entries (esrt/mod.rs, capsule.rs).
use framework_system.Base.{
  List, [], ◌∷◌, ℕ, ◌≡◌, refl, ok, Returns, replicate, arith, Bool, true, ltb, ltb→lt, ◌&&◌,
  Bool-cases, inl, inr,
}
use framework_system.Bytes.{IsBytes}
use framework_system.Guid.{Guid, from_bytes, to_bytes, display, guid, parse_guid}
use framework_system.Guid.Bytes.{IsGuid, from_bytes-to_bytes, to_bytes-from_bytes}
use framework_system.Guid.Canonical.{guid-display}
use framework_system.Guid.NoPanic.{parse_guid-Returns}

-- 3b8c8162-188c-46a4-aec9-be43f1d65697
abbrev winux_guid : Guid
winux_guid = record {
  a = 0x3b8c8162;
  b = 0x188c;
  c = 0x46a4;
  d = 0xae ∷ 0xc9 ∷ 0xbe ∷ 0x43 ∷ 0xf1 ∷ 0xd6 ∷ 0x56 ∷ 0x97 ∷ [];
}

abbrev winux_bytes : List ℕ
winux_bytes =
    0x62 ∷ 0x81 ∷ 0x8c ∷ 0x3b ∷ 0x8c ∷ 0x18 ∷ 0xa4 ∷ 0x46 ∷ 0xae ∷ 0xc9 ∷ 0xbe ∷ 0x43 ∷ 0xf1 ∷ 0xd6
    ∷ 0x56 ∷ 0x97 ∷ []

winux_guid-bytes : to_bytes winux_guid ≡ winux_bytes
unfolding to_bytes
winux_guid-bytes = unfold framework_system.Bytes.to_le in refl

abbrev are_bytes : List ℕ → Bool
are_bytes [] = true
are_bytes (b ∷ bs) = ltb b 256 && are_bytes bs

checked : (bs : List ℕ) → are_bytes bs ≡ true → IsBytes bs
checked [] h = tt
checked (b ∷ bs) h = elim (Bool-cases (ltb b 256)) [
  | inl e ↦ (ltb→lt b 256 e, checked bs (rw e at h))
  | inr e ↦ let p = rw e at h in cc
]

winux_guid-IsGuid : IsGuid winux_guid
winux_guid-IsGuid = record {
  a_fits = omega arith;
  b_fits = omega arith;
  c_fits = omega arith;
  d_length = refl;
  d_bytes = checked winux_guid.d refl;
}

winux_bytes-IsBytes : IsBytes winux_bytes
winux_bytes-IsBytes = checked winux_bytes refl

winux_guid_kept : from_bytes (to_bytes winux_guid) ≡ winux_guid
winux_guid_kept = from_bytes-to_bytes winux_guid winux_guid-IsGuid

winux_bytes_kept : to_bytes (from_bytes winux_bytes) ≡ winux_bytes
winux_bytes_kept = to_bytes-from_bytes winux_bytes refl winux_bytes-IsBytes

guid-display_example : guid (display winux_guid) ≡ ok winux_guid
guid-display_example = guid-display winux_guid winux_guid-IsGuid

-- A text of the right length whose parts are all empty.
abbrev dashes : List ℕ
dashes = replicate 36 b'-'

parse_guid-Returns_example : Returns (parse_guid dashes)
parse_guid-Returns_example = parse_guid-Returns dashes
