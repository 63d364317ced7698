-- ===== src/Bytes.antt =====
-- Bytes and words: the little- and big-endian conversions of the integer types, and the fields of
-- the packed structs that the code reads from a buffer with `ptr::read`.
mod Masks
pub use Masks.*
use framework_system.Base.{
  ℕ, zero, suc, ◌+◌, ◌-◌, ◌*◌, ◌/◌, ◌%◌, ◌^◌, ◌<◌, ◌≤◌, ◌≡◌, refl, ap₂, arith,
}
use framework_system.Base.{take-drop-take, drop-drop}
use framework_system.Base.{
  List, [], ◌∷◌, ◌++◌, length, take, drop, All, length-take-drop, reverse, length-reverse,
  All-reverse, sym, ap, ◌∙◌,
}
use mathlib.Core.List.{reverse_aux}
use native.Mathlib.Nat.{pow-suc}

abbrev pub IsByte : ℕ → Type 0
IsByte b = b < 256

abbrev pub IsBytes : List ℕ → Type 0
IsBytes = All IsByte

-- `uN::from_le_bytes`
unfoldable pub from_le : List ℕ → ℕ
from_le [] = 0
from_le (b ∷ bs) = b + 256 * from_le bs

-- `uN::to_le_bytes`, with `n` bytes.
unfoldable pub to_le : ℕ → ℕ → List ℕ
to_le zero x = []
to_le (suc n) x = x % 256 ∷ to_le n (x / 256)

-- `uN::from_be_bytes`, read from the left.
unfoldable pub from_be : ℕ → List ℕ → ℕ
from_be acc [] = acc
from_be acc (b ∷ bs) = from_be (acc * 256 + b) bs

-- A field of `n` bytes at an offset of a packed struct.
unfoldable pub field : List ℕ → ℕ → ℕ → ℕ
unfolding from_le
field xs offset n = from_le (take n (drop offset xs))

pub length-to_le : (n x : ℕ) → length (to_le n x) ≡ n
unfolding to_le
length-to_le zero x = refl
length-to_le (suc n) x = omega (arith, length-to_le n (x / 256))

pub to_le-IsBytes : (n x : ℕ) → IsBytes (to_le n x)
unfolding to_le
to_le-IsBytes zero x = tt
to_le-IsBytes (suc n) x = (omega arith, to_le-IsBytes n (x / 256))

pub to_le-from_le : (bs : List ℕ) → IsBytes bs → to_le (length bs) (from_le bs) ≡ bs
unfolding to_le from_le
to_le-from_le [] h = refl
to_le-from_le (b ∷ bs) (hb, hbs) =
    let shifted : (b + 256 * from_le bs) / 256 ≡ from_le bs = omega arith in
    rw shifted (ap₂ ◌∷◌ (omega arith) (to_le-from_le bs hbs))

pub from_le-to_le_u16 : (x : ℕ) → x < 2 ^ 16 → from_le (to_le 2 x) ≡ x
unfolding to_le from_le
from_le-to_le_u16 x h = omega arith

pub from_le-to_le_u32 : (x : ℕ) → x < 2 ^ 32 → from_le (to_le 4 x) ≡ x
unfolding to_le from_le
from_le-to_le_u32 x h = omega arith

pub from_le-lt : (bs : List ℕ) → IsBytes bs → from_le bs < 256 ^ length bs
unfolding from_le
from_le-lt [] h = omega arith
from_le-lt (b ∷ bs) h = omega (arith, h.0, from_le-lt bs h.1, pow-suc 256 (length bs))

-- Reading from the left is reading the reversed bytes from the right.
from_be-reverse_aux : (xs ys : List ℕ) → from_be (from_le ys) xs ≡ from_le (reverse_aux xs ys)
unfolding from_be from_le
from_be-reverse_aux [] ys = refl
from_be-reverse_aux (b ∷ xs) ys =
    ap (λ (acc : ℕ). from_be acc xs) (omega arith) ∙ from_be-reverse_aux xs (b ∷ ys)

pub from_be-from_le : (xs : List ℕ) → from_be 0 xs ≡ from_le (reverse xs)
unfolding from_le
from_be-from_le xs = from_be-reverse_aux xs []

-- The bytes of a big-endian number.
pub to_le-from_be : (xs : List ℕ) → IsBytes xs → to_le (length xs) (from_be 0 xs) ≡ reverse xs
to_le-from_be xs h =
    rw (from_be-from_le xs, sym (length-reverse xs))
      (to_le-from_le (reverse xs) (All-reverse IsByte xs h))

pub from_be-lt : (xs : List ℕ) → IsBytes xs → from_be 0 xs < 256 ^ length xs
from_be-lt xs h =
    rw (from_be-from_le xs, sym (length-reverse xs))
      (from_le-lt (reverse xs) (All-reverse IsByte xs h))

-- A field of a piece of a buffer is a field of the buffer.
pub field-take-drop :
    (xs : List ℕ) (lo m o n : ℕ) → o + n ≤ m → field (take m (drop lo xs)) o n ≡ field xs (lo + o) n
unfolding field
field-take-drop xs lo m o n h =
    ap from_le (take-drop-take o n m (drop lo xs) h ∙ ap (take n) (drop-drop o lo xs))

-- A prefix holds the fields that lie in it.
pub field-take : (xs : List ℕ) (m o n : ℕ) → o + n ≤ m → field (take m xs) o n ≡ field xs o n
unfolding field
field-take xs m o n h = ap from_le (take-drop-take o n m xs h)

pub field-drop : (xs : List ℕ) (lo o n : ℕ) → field (drop lo xs) o n ≡ field xs (lo + o) n
unfolding field
field-drop xs lo o n = ap (λ (t : List ℕ). from_le (take n t)) (drop-drop o lo xs)
