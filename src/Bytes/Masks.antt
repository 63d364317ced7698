-- ===== src/Bytes/Masks.antt =====
-- The masks that the code applies to a byte, as arithmetic. Each is checked at all 256 bytes.
use Prim.Native.Nat.{ℕ, ◌/◌, ◌%◌, ◌<◌, bit_and}
use mathlib.Core.Path.{◌≡◌, refl}
use mathlib.Core.Bool.{true}
use framework_system.Base.{passes, passes_sound, ◌==◌, ==_iff}

high_nibble_table : passes (λ x. bit_and x 0xF0 / 16 == x / 16) 256 ≡ true
unfolding passes
high_nibble_table = refl

pub high_nibble : (x : ℕ) → x < 256 → bit_and x 0xF0 / 16 ≡ x / 16
high_nibble x h = (==_iff _ _).0 (passes_sound _ 256 x high_nibble_table h)

low_nibble_table : passes (λ x. bit_and x 0x0F == x % 16) 256 ≡ true
unfolding passes
low_nibble_table = refl

pub low_nibble : (x : ℕ) → x < 256 → bit_and x 0x0F ≡ x % 16
low_nibble x h = (==_iff _ _).0 (passes_sound _ 256 x low_nibble_table h)
