-- ===== src/Ec/Mec/Masks.antt =====
-- The two masks of portio_mec.rs, as arithmetic on an aligned address of 16 bits.
use framework_system.Base.{
  ℕ, ◌*◌, ◌+◌, ◌/◌, ◌^◌, ◌<◌, bit_and, bit_or, ◌≡◌, refl, true, passes, passes_sound, ◌==◌, ==_iff,
}

aligned_table : passes (λ k. bit_and (4 * k) 0xFFFC == 4 * k) 16384 ≡ true
unfolding passes
aligned_table = refl

pub aligned_mask : (k : ℕ) → k < 16384 → bit_and (4 * k) 0xFFFC ≡ 4 * k
aligned_mask k h = (==_iff _ _).0 (passes_sound _ 16384 k aligned_table h)

long_table : passes (λ k. bit_or (4 * k) 3 == 4 * k + 3) 16384 ≡ true
unfolding passes
long_table = refl

pub long_mask : (k : ℕ) → k < 16384 → bit_or (4 * k) 3 ≡ 4 * k + 3
long_mask k h = (==_iff _ _).0 (passes_sound _ 16384 k long_table h)

byte_table : passes (λ k. bit_or (4 * k) 0 == 4 * k) 16384 ≡ true
unfolding passes
byte_table = refl

pub byte_mask : (k : ℕ) → k < 16384 → bit_or (4 * k) 0 ≡ 4 * k
byte_mask k h = (==_iff _ _).0 (passes_sound _ 16384 k byte_table h)

word_table : passes (λ a. bit_and a 0xFFFC == 4 * (a / 4)) 65536 ≡ true
unfolding passes
word_table = refl

pub word_mask : (a : ℕ) → a < 2 ^ 16 → bit_and a 0xFFFC ≡ 4 * (a / 4)
word_mask a h = (==_iff _ _).0 (passes_sound _ 65536 a word_table h)
