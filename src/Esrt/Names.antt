-- ===== src/Esrt/Names.antt =====
-- `guid_from_str` (esrt/mod.rs) on the texts that a GUID is printed as, and on others.
use framework_system.Base.{
  ℕ, ◌<◌, ◌^◌, List, [], ◌∷◌, ◌++◌, ◌≡◌, refl, ap, ok, panic, lt→ltb, arith, index,
}
use framework_system.Guid.{Guid, display}
use framework_system.Guid.Bytes.{IsGuid}
use framework_system.Guid.Hex.{hex, hex-IsPlain}
use framework_system.Guid.Canonical.{
  split-display, from_values-fields, from_str_radix-hex, clock, node, clock-lt, node-lt, split_last,
}
use framework_system.Text.{strip_newline}
use framework_system.Esrt.{radix_16, guid_of_sections, guid_from_str}

strip_newline-append : (xs : List ℕ) → strip_newline (xs ++ (10 ∷ [])) ≡ xs
unfolding strip_newline
strip_newline-append [] = refl
strip_newline-append (c ∷ []) = refl
strip_newline-append (c ∷ d ∷ cs) = ap (λ (t : List ℕ). c ∷ t) (strip_newline-append (d ∷ cs))

radix_16-hex : (bound n x : ℕ) → 0 < n → x < 16 ^ n → x < bound → radix_16 bound (hex n x) ≡ ok x
unfolding radix_16
radix_16-hex bound n x pos h k = rw (radix_16, from_str_radix-hex n x pos h, lt→ltb x bound k) refl

-- The printed text of a GUID with fields in range, and with a newline behind it, as the kernel gives
-- it, is decoded to the GUID.
pub guid_from_str-display : (g : Guid) → IsGuid g → guid_from_str (display g ++ (10 ∷ [])) ≡ ok g
unfolding guid_from_str guid_of_sections index
guid_from_str-display g h =
    rw
      (
        strip_newline-append (display g),
        split-display g h,
        radix_16-hex (2 ^ 32) 8 g.a (omega arith) h.a_fits h.a_fits,
        radix_16-hex (2 ^ 16) 4 g.b (omega arith) h.b_fits h.b_fits,
        radix_16-hex (2 ^ 16) 4 g.c (omega arith) h.c_fits h.c_fits,
        radix_16-hex (2 ^ 16) 4 (clock g) (omega arith) (clock-lt g h) (clock-lt g h),
        radix_16-hex (2 ^ 64) 12 (node g) (omega arith) (node-lt g h) (omega (arith, node-lt g h)),
      )
      (from_values-fields g h)

-- A single number of 8 hexadecimal digits is no GUID, and is a panic instead of `None`.
guid_from_str_panics : (x : ℕ) → x < 2 ^ 32 → guid_from_str (hex 8 x ++ (10 ∷ [])) ≡ panic
unfolding guid_from_str guid_of_sections index
guid_from_str_panics x h =
    rw
      (
        strip_newline-append (hex 8 x),
        split_last (hex 8 x) (hex-IsPlain 8 x),
        radix_16-hex (2 ^ 32) 8 x (omega arith) h h,
      )
      refl
