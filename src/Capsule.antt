-- ===== src/Capsule.antt =====
-- framework_lib/src/capsule.rs: the headers of UEFI capsules, and the image of a display capsule.
pub mod Headers
pub mod Image
pub mod Content
pub mod Firmware
use framework_system.Base.{
  ℕ, ◌-◌, ◌%◌, ◌^◌, List, length, take, Bool, true, false, ltb, not, ◌==◌, if◌then◌else◌, Result,
  ok, err, panic, Maybe, ◌>>=◌, slice,
}
use framework_system.Bytes.{field}
use framework_system.Guid.{Guid, from_bytes}

pub record EfiCapsuleHeader : Type 0 where
  pub capsule_guid : Guid
  pub header_size : ℕ
  pub flags : ℕ
  pub capsule_image_size : ℕ

abbrev pub capsule_header_len : ℕ
capsule_header_len = 28

-- The struct at the start of a buffer.
unfoldable pub read_capsule_header : List ℕ → EfiCapsuleHeader
unfolding field
read_capsule_header bytes = record {
  capsule_guid = from_bytes (take 16 bytes);
  header_size = field bytes 16 4;
  flags = field bytes 20 4;
  capsule_image_size = field bytes 24 4;
}

-- `EfiCapsuleHeader::is_valid`; the length of the buffer is cast to 32 bits.
unfoldable pub is_valid : EfiCapsuleHeader → List ℕ → Bool
is_valid h buffer =
    let size = length buffer % 2 ^ 32 in
    if not (h.capsule_image_size == size)
    then false
    else if ltb h.capsule_image_size h.header_size
    then false
    else if ltb h.header_size capsule_header_len
    then false
    else true

unfoldable pub parse_capsule_header : List ℕ → Maybe EfiCapsuleHeader
unfolding is_valid
parse_capsule_header buffer = do
  bytes ← slice buffer 0 capsule_header_len
  let header = read_capsule_header bytes
  if is_valid header buffer then ok header else err tt

pub record DisplayPayload : Type 0 where
  pub version : ℕ
  pub checksum : ℕ
  pub image_type : ℕ
  pub reserved : ℕ
  pub mode : ℕ
  pub offset_x : ℕ
  pub offset_y : ℕ

pub record DisplayCapsule : Type 0 where
  pub capsule_header : EfiCapsuleHeader
  pub image_payload : DisplayPayload

abbrev pub display_capsule_len : ℕ
display_capsule_len = 44

unfoldable pub read_display_capsule : List ℕ → DisplayCapsule
unfolding read_capsule_header
read_display_capsule bytes = record {
  capsule_header = read_capsule_header bytes;
  image_payload = record {
    version = field bytes 28 1;
    checksum = field bytes 29 1;
    image_type = field bytes 30 1;
    reserved = field bytes 31 1;
    mode = field bytes 32 4;
    offset_x = field bytes 36 4;
    offset_y = field bytes 40 4;
  };
}

unfoldable pub parse_ux_header : List ℕ → Maybe DisplayCapsule
parse_ux_header buffer = do
  bytes ← slice buffer 0 display_capsule_len
  ok (read_display_capsule bytes)

-- The bytes that `dump_winux_image` writes to its file. A capsule that is shorter than its headers
-- panics: in the subtraction, or in the slice behind it.
unfoldable pub dump_winux_image : List ℕ → DisplayCapsule → Maybe (List ℕ)
dump_winux_image buffer header =
    if ltb header.capsule_header.capsule_image_size display_capsule_len
    then panic
    else slice buffer display_capsule_len
        (header.capsule_header.capsule_image_size - display_capsule_len)
