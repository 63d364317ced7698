-- ===== src/Power/Lossy.antt =====
-- `String::from_utf8_lossy` of the standard library, on lists of bytes: each part that cannot be
-- continued to a character becomes U+FFFD.
use framework_system.Base.{
  ℕ, zero, suc, List, [], ◌∷◌, ◌++◌, ltb, leb, ◌==◌, ◌&&◌, if◌then◌else◌, Option, none, some,
}

-- A character that was begun: its bytes, how many are missing after the next, and the range of the
-- next.
pub record Begun : Type 0 where
  pub bytes : List ℕ
  pub more : ℕ
  pub lowest : ℕ
  pub highest : ℕ

abbrev pub replacement : List ℕ
replacement = 0xEF ∷ 0xBF ∷ 0xBD ∷ []

abbrev begin : ℕ → ℕ → ℕ → ℕ → Option Begun
begin b more lowest highest =
    some (record { bytes = b ∷ []; more = more; lowest = lowest; highest = highest })

-- What the first byte of a character begins, if it is one of several.
unfoldable pub begin_at : ℕ → Option Begun
begin_at b =
    if leb 0xC2 b && leb b 0xDF
    then begin b 0 0x80 0xBF
    else if b == 0xE0
    then begin b 1 0xA0 0xBF
    else if b == 0xED
    then begin b 1 0x80 0x9F
    else if leb 0xE1 b && leb b 0xEF
    then begin b 1 0x80 0xBF
    else if b == 0xF0
    then begin b 2 0x90 0xBF
    else if leb 0xF1 b && leb b 0xF3
    then begin b 2 0x80 0xBF
    else if b == 0xF4
    then begin b 2 0x80 0x8F
    else none

-- The text that a byte completes, and the character that is begun behind it.
abbrev lead : ℕ → List ℕ × Option Begun
lead b =
    if ltb b 0x80
    then (b ∷ [], none)
    else elim (begin_at b) [ none ↦ (replacement, none) | some c ↦ ([], some c) ]

abbrev continued : Begun → ℕ → List ℕ × Option Begun
continued c b = elim c.more [
  | zero ↦ (c.bytes ++ (b ∷ []), none)
  | suc more ↦ (
    [],
    some (record { bytes = c.bytes ++ (b ∷ []); more = more; lowest = 0x80; highest = 0xBF }),
  )
]

-- One byte behind what was begun.
unfoldable pub feed : Option Begun → ℕ → List ℕ × Option Begun
unfolding begin_at
feed none b = lead b
feed (some c) b =
    if leb c.lowest b && leb b c.highest
    then continued c b
    else (let fresh = lead b in (replacement ++ fresh.0, fresh.1))

unfoldable pub lossy : Option Begun → List ℕ → List ℕ
unfolding feed
lossy none [] = []
lossy (some c) [] = replacement
lossy pending (b ∷ bs) = let fed = feed pending b in fed.0 ++ lossy fed.1 bs

unfoldable pub from_utf8_lossy : List ℕ → List ℕ
unfolding lossy
from_utf8_lossy bytes = lossy none bytes

-- `replace(['\0'], "")`
unfoldable pub remove_zeros : List ℕ → List ℕ
remove_zeros [] = []
remove_zeros (b ∷ bs) = let rest = remove_zeros bs in if b == 0 then rest else b ∷ rest
