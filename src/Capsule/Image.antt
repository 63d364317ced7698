-- ===== src/Capsule/Image.antt =====
-- What is written of the image of a display capsule.
use framework_system.Base.{
  ℕ, ◌+◌, ◌-◌, ◌≤◌, ◌≡◌, arith, List, length, take, drop, ◌++◌, ok, slice_in_range,
  length-take-drop, take-drop-append, length-drop, ltb, le→not_ltb, false,
}
use framework_system.Capsule.{DisplayCapsule, dump_winux_image}

-- For a capsule with the size that its header names, and of 88 bytes at least, the bytes between
-- the headers and the last 44 bytes are written: the last 44 bytes of the image are left out.
pub dump_winux_image-drops_tail :
    (buffer : List ℕ) (h : DisplayCapsule)
    → h.capsule_header.capsule_image_size ≡ length buffer
    → 88 ≤ length buffer
    → (image : List ℕ) × (dump_winux_image buffer h ≡ ok image)
      × (image ++ drop (length buffer - 44) buffer ≡ drop 44 buffer)
      × (length image + 44 ≡ length (drop 44 buffer))
unfolding dump_winux_image
dump_winux_image-drops_tail buffer h named long =
    let n = length buffer - 88 in
    let end : length buffer - 44 ≡ 44 + n = omega arith in
    let big : ltb (length buffer) 44 ≡ false = le→not_ltb (length buffer) 44 (omega arith) in
    (
      take n (drop 44 buffer),
      rw (named, big, end) (slice_in_range buffer 44 n (omega arith)),
      rw end (take-drop-append 44 n buffer),
      omega (arith, length-take-drop buffer 44 n (omega arith), length-drop 44 buffer),
    )
