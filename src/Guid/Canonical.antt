-- ===== src/Guid/Canonical.antt =====
-- The canonical text of a GUID: `parse_guid` reads back what `Display` prints, never panics, and
-- the `guid!` macro gives the GUID itself.
use framework_system.Base.{
  ℕ, ◌*◌, ◌/◌, ◌%◌, ◌^◌, ◌<◌, ◌≡◌, refl, ap₂, ◌∙◌, arith, lt→ltb, take-of_length_le, length-drop,
  take-append-drop,
}
use framework_system.Base.{
  List, [], ◌∷◌, ◌++◌, length, length-append, take, drop, All, All-take, All-drop, length-take-drop,
  reverse,
}
use mathlib.Core.List.{reverse-reverse}
use framework_system.Base.{ok, some}
use framework_system.Bytes.{from_be, to_le, IsByte, IsBytes, from_be-lt, to_le-from_be}
use framework_system.Guid.{Guid, display, extend, split, next_guid_int, parse_guid, guid}
use framework_system.Guid.{from_values}
use framework_system.Guid.Hex.{
  hex, digits, from_str_radix, length-hex, digits-hex, hex-IsPlain, IsPlain,
}
use framework_system.Guid.Bytes.{IsGuid}

split-append : (xs ys : List ℕ) → All IsPlain xs → split (xs ++ (b'-' ∷ ys)) ≡ xs ∷ split ys
unfolding split extend
split-append [] ys h = refl
split-append (x ∷ xs) ys (plain, h) = rw (split-append xs ys h) (ground arith)

pub split_last : (xs : List ℕ) → All IsPlain xs → split xs ≡ xs ∷ []
unfolding split extend
split_last [] h = refl
split_last (x ∷ xs) (plain, h) = rw (split_last xs h) (ground arith)

from_str_radix-plain :
    (c : ℕ) (cs : List ℕ) → IsPlain c → from_str_radix (c ∷ cs) ≡ digits 0 (c ∷ cs)
unfolding from_str_radix
from_str_radix-plain c [] h = refl
from_str_radix-plain c (c' ∷ cs) h = ground arith

from_str_radix_of_plain :
    (cs : List ℕ) → 0 < length cs → All IsPlain cs → from_str_radix cs ≡ digits 0 cs
from_str_radix_of_plain [] h p = absurd (omega arith)
from_str_radix_of_plain (c ∷ cs) h p = from_str_radix-plain c cs p.0

pub from_str_radix-hex : (n x : ℕ) → 0 < n → x < 16 ^ n → from_str_radix (hex n x) ≡ some x
from_str_radix-hex n x pos h =
    from_str_radix_of_plain (hex n x) (omega (arith, length-hex n x)) (hex-IsPlain n x)
    ∙ digits-hex n x h

-- A number that fits its bytes is read back from its digits.
next_guid_int-hex :
    (len x : ℕ) (parts : List (List ℕ))
    → 0 < len
    → x < 16 ^ (len * 2)
    → next_guid_int len (hex (len * 2) x ∷ parts) ≡ ok (x, parts)
unfolding next_guid_int
next_guid_int-hex len x parts pos h =
    rw (from_str_radix-hex (len * 2) x (omega arith) h) (ground (arith, length-hex (len * 2) x))

text : ℕ → ℕ → ℕ → ℕ → ℕ → List ℕ
text a b c d e =
    hex 8 a ++ (b'-' ∷ hex 4 b ++ (b'-' ∷ hex 4 c ++ (b'-' ∷ hex 4 d ++ (b'-' ∷ hex 12 e))))

module _ (a b c d e : ℕ) where
  length-text : length (text a b c d e) ≡ 36
  unfolding text
  length-text = omega (
    arith,
    length-append (hex 8 a),
    length-append (hex 4 b),
    length-append (hex 4 c),
    length-append (hex 4 d),
    length-hex,
  )

  split-text : split (text a b c d e) ≡ hex 8 a ∷ hex 4 b ∷ hex 4 c ∷ hex 4 d ∷ hex 12 e ∷ []
  unfolding text
  split-text =
      rw
        (
          split-append (hex 8 a) _ (hex-IsPlain 8 a),
          split-append (hex 4 b) _ (hex-IsPlain 4 b),
          split-append (hex 4 c) _ (hex-IsPlain 4 c),
          split-append (hex 4 d) _ (hex-IsPlain 4 d),
          split_last (hex 12 e) (hex-IsPlain 12 e),
        )
        refl

  parse_guid-text :
      a < 2 ^ 32
      → b < 2 ^ 16
      → c < 2 ^ 16
      → d < 2 ^ 16
      → e < 2 ^ 48
      → parse_guid (text a b c d e) ≡ ok (a, b, c, d, e)
  unfolding parse_guid
  parse_guid-text ha hb hc hd he =
      rw
        (
          length-text,
          split-text,
          next_guid_int-hex 4 a _ (omega arith) ha,
          next_guid_int-hex 2 b _ (omega arith) hb,
          next_guid_int-hex 2 c _ (omega arith) hc,
          next_guid_int-hex 2 d _ (omega arith) hd,
          next_guid_int-hex 6 e _ (omega arith) he,
        )
        (ground arith)

-- The last number of the text, and the one before it.
pub node : Guid → ℕ
node g = from_be 0 (0 ∷ 0 ∷ take 6 (drop 2 g.d))

pub clock : Guid → ℕ
clock g = from_be 0 (take 2 g.d)

two_bytes :
    (xs : List ℕ)
    → length xs ≡ 2
    → IsBytes xs
    → (from_be 0 xs / 0x100 % 256) ∷ (from_be 0 xs % 0x100) ∷ [] ≡ xs
unfolding from_be
two_bytes [] e h = absurd (omega arith)
two_bytes (x ∷ []) e h = absurd (omega arith)
two_bytes (x ∷ y ∷ []) e h = ap₂ (λ (a b : ℕ). a ∷ b ∷ []) (omega arith) (omega arith)
two_bytes (x ∷ y ∷ z ∷ xs) e h = absurd (omega arith)

module _ (g : Guid) (h : IsGuid g) where
  tail-length : length (take 6 (drop 2 g.d)) ≡ 6
  tail-length = length-take-drop g.d 2 6 (omega (arith, h.d_length))

  tail-IsBytes : IsBytes (take 6 (drop 2 g.d))
  tail-IsBytes = All-take IsByte 6 _ (All-drop IsByte 2 g.d h.d_bytes)

  pub node-lt : node g < 2 ^ 48
  unfolding node from_be
  node-lt = let bound = from_be-lt (take 6 (drop 2 g.d)) tail-IsBytes in rw tail-length at bound

  head-length : length (take 2 g.d) ≡ 2
  head-length = length-take-drop g.d 0 2 (omega (arith, h.d_length))

  pub clock-lt : clock g < 2 ^ 16
  unfolding clock
  clock-lt =
      let bound = from_be-lt (take 2 g.d) (All-take IsByte 2 g.d h.d_bytes) in
      rw head-length at bound

  -- Parsing the printed text of a GUID gives its five numbers.
  pub parse_guid-display : parse_guid (display g) ≡ ok (g.a, g.b, g.c, clock g, node g)
  unfolding display text node clock
  parse_guid-display =
      parse_guid-text g.a g.b g.c (clock g) (node g) h.a_fits h.b_fits h.c_fits clock-lt node-lt

  tail-from_values : drop 2 (reverse (to_le 8 (node g))) ≡ take 6 (drop 2 g.d)
  unfolding node
  tail-from_values =
      let t = take 6 (drop 2 g.d) in
      let bytes : to_le (length (0 ∷ 0 ∷ t)) (node g) ≡ reverse (0 ∷ 0 ∷ t) =
        to_le-from_be (0 ∷ 0 ∷ t) (omega arith, (omega arith, tail-IsBytes)) in
      let eight : length (0 ∷ 0 ∷ t) ≡ 8 = omega (arith, tail-length) in
      let bytes_8 : to_le 8 (node g) ≡ reverse (0 ∷ 0 ∷ t) = rw eight at bytes in
      rw (bytes_8, reverse-reverse (0 ∷ 0 ∷ t)) refl

  head-from_values : (clock g / 0x100 % 256) ∷ (clock g % 0x100) ∷ [] ≡ take 2 g.d
  unfolding clock
  head-from_values = two_bytes (take 2 g.d) head-length (All-take IsByte 2 g.d h.d_bytes)

  d-from_values :
      (clock g / 0x100 % 256) ∷ (clock g % 0x100) ∷ drop 2 (reverse (to_le 8 (node g))) ≡ g.d
  d-from_values =
      ap₂ ◌++◌ head-from_values (
        tail-from_values
        ∙ take-of_length_le 6 (drop 2 g.d) (omega (arith, length-drop 2 g.d, h.d_length)))
      ∙ take-append-drop 2 g.d

  -- The sections of the printed text.
  pub split-display :
      split (display g) ≡ hex 8 g.a ∷ hex 4 g.b ∷ hex 4 g.c ∷ hex 4 (clock g) ∷ hex 12 (node g) ∷ []
  unfolding display text node clock
  split-display = split-text g.a g.b g.c (clock g) (node g)

  pub from_values-fields {ℓ} :
      {E : Type ℓ} → from_values {E = E} g.a g.b g.c (clock g) (node g) ≡ ok g
  unfolding from_values
  from_values-fields =
      rw (lt→ltb _ _ node-lt) λ i. ok (record { a = g.a; b = g.b; c = g.c; d = d-from_values i })

  -- The `guid!` macro on the printed text of a GUID gives the GUID.
  pub guid-display : guid (display g) ≡ ok g
  unfolding guid
  guid-display = rw parse_guid-display from_values-fields
