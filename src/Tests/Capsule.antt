-- ===== src/Tests/Capsule.antt =====
-- A display capsule of 100 bytes.
use framework_system.Base.{
  List, [], ◌∷◌, ◌++◌, ℕ, ◌+◌, ◌-◌, ◌≡◌, refl, ok, length, replicate, drop, slice, arith,
}
use framework_system.Guid.{from_bytes}
use framework_system.Capsule.{
  EfiCapsuleHeader, DisplayCapsule, read_capsule_header, parse_capsule_header, dump_winux_image,
}
use framework_system.Capsule.Headers.{IsHeaderOf, parse_capsule_header-IsHeaderOf}
use framework_system.Capsule.Image.{dump_winux_image-drops_tail}

abbrev guid_bytes : List ℕ
guid_bytes =
    0x62 ∷ 0x81 ∷ 0x8c ∷ 0x3b ∷ 0x8c ∷ 0x18 ∷ 0xa4 ∷ 0x46 ∷ 0xae ∷ 0xc9 ∷ 0xbe ∷ 0x43 ∷ 0xf1 ∷ 0xd6
    ∷ 0x56 ∷ 0x97 ∷ []

abbrev capsule : List ℕ
capsule = guid_bytes ++ (28 ∷ 0 ∷ 0 ∷ 0 ∷ 0 ∷ 0 ∷ 1 ∷ 0 ∷ 100 ∷ 0 ∷ 0 ∷ 0 ∷ [] ++ replicate 72 0)

abbrev header : EfiCapsuleHeader
header = record {
  capsule_guid = from_bytes guid_bytes;
  header_size = 28;
  flags = 0x10000;
  capsule_image_size = 100;
}

header-parsed : parse_capsule_header capsule ≡ ok header
unfolding parse_capsule_header read_capsule_header
header-parsed = unfold slice in refl

header_read : IsHeaderOf capsule header
header_read = parse_capsule_header-IsHeaderOf capsule header (omega arith) header-parsed

abbrev display : DisplayCapsule
display = record {
  capsule_header = header;
  image_payload = record {
    version = 0;
    checksum = 0;
    image_type = 0;
    reserved = 0;
    mode = 0;
    offset_x = 0;
    offset_y = 0;
  };
}

dump_winux_image-drops_tail_example :
    (image : List ℕ) × (dump_winux_image capsule display ≡ ok image)
    × (image ++ drop (length capsule - 44) capsule ≡ drop 44 capsule)
    × (length image + 44 ≡ length (drop 44 capsule))
dump_winux_image-drops_tail_example = dump_winux_image-drops_tail capsule display refl (omega arith)
