-- ===== src/EcBinary/Text.antt =====
-- `str::from_utf8` and `trim_end_matches` of the standard library, on lists of bytes.
use framework_system.Base.{
  ℕ, List, [], ◌∷◌, Option, none, some, leb, ltb, ◌==◌, ◌&&◌, Bool, true, false,
}
use framework_system.Base.{if◌then◌else◌, ◌||◌}

abbrev within : ℕ → ℕ → ℕ → Bool
within lo hi b = leb lo b && leb b hi

abbrev pub is_continuation : ℕ → Bool
is_continuation = within 0x80 0xBF

-- The second byte that may follow a leading byte of three or four.
second_of_three : ℕ → ℕ → Bool
second_of_three b0 b1 =
    (b0 == 0xE0 && within 0xA0 0xBF b1)
    || ((within 0xE1 0xEC b0 || within 0xEE 0xEF b0) && is_continuation b1)
    || (b0 == 0xED && within 0x80 0x9F b1)

second_of_four : ℕ → ℕ → Bool
second_of_four b0 b1 =
    (b0 == 0xF0 && within 0x90 0xBF b1)
    || (within 0xF1 0xF3 b0 && is_continuation b1)
    || (b0 == 0xF4 && within 0x80 0x8F b1)

unfoldable pub is_utf8 : List ℕ → Bool
unfolding second_of_three second_of_four
is_utf8 [] = true
is_utf8 (b0 ∷ []) = ltb b0 0x80
is_utf8 (b0 ∷ b1 ∷ []) = (ltb b0 0x80 && ltb b1 0x80) || (within 0xC2 0xDF b0 && is_continuation b1)
is_utf8 (b0 ∷ b1 ∷ b2 ∷ []) =
    (ltb b0 0x80 && is_utf8 (b1 ∷ b2 ∷ []))
    || (within 0xC2 0xDF b0 && is_continuation b1 && ltb b2 0x80)
    || (second_of_three b0 b1 && is_continuation b2)
is_utf8 (b0 ∷ b1 ∷ b2 ∷ b3 ∷ bs) = elim (ltb b0 0x80) [
  | true ↦ is_utf8 (b1 ∷ b2 ∷ b3 ∷ bs)
  | false ↦ elim (within 0xC2 0xDF b0 && is_continuation b1) [
    | true ↦ is_utf8 (b2 ∷ b3 ∷ bs)
    | false ↦ elim (second_of_three b0 b1 && is_continuation b2) [
      | true ↦ is_utf8 (b3 ∷ bs)
      | false ↦ second_of_four b0 b1 && is_continuation b2 && is_continuation b3 && is_utf8 bs
    ]
  ]
]

unfoldable pub from_utf8 : List ℕ → Option (List ℕ)
from_utf8 bytes = if is_utf8 bytes then some bytes else none

-- `trim_end_matches(char::from(0))`
unfoldable pub trim_end_zeros : List ℕ → List ℕ
trim_end_zeros [] = []
trim_end_zeros (b ∷ bs) = put b (trim_end_zeros bs)
  where
    put : ℕ → List ℕ → List ℕ
    put b [] = if b == 0 then [] else b ∷ []
    put b (c ∷ cs) = b ∷ c ∷ cs
