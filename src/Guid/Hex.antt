-- ===== src/Guid/Hex.antt =====
-- The hexadecimal text of a GUID: the digits that `{:08x}` and the like print, and
-- `u64::from_str_radix` in base 16.
use native.Mathlib.Nat.{pow-suc}
use framework_system.Base.{ℕ, zero, suc, ◌+◌, ◌-◌, ◌*◌, ◌/◌, ◌%◌, ◌^◌, ◌<◌, ◌≡◌, refl, arith}
use framework_system.Base.{
  List, [], ◌∷◌, ◌++◌, Option, none, some, length, length-append, All, All-append, ap, Option-cases,
  inl, inr,
}
use framework_system.Base.{ltb, leb, ◌==◌, ◌&&◌, if◌then◌else◌, ◌≢◌, ◌∙◌}

unfoldable pub digit_char : ℕ → ℕ
digit_char d = if ltb d 10 then b'0' + d else b'a' + (d - 10)

-- The `n` low hexadecimal digits of a number, the highest first.
unfoldable pub hex : ℕ → ℕ → List ℕ
unfolding digit_char
hex zero x = []
hex (suc n) x = hex n (x / 16) ++ (digit_char (x % 16) ∷ [])

-- `char::to_digit(16)`
unfoldable pub digit_value : ℕ → Option ℕ
digit_value c =
    if leb b'0' c && leb c b'9'
    then some (c - b'0')
    else if leb b'a' c && leb c b'f'
    then some (c - b'a' + 10)
    else if leb b'A' c && leb c b'F'
    then some (c - b'A' + 10)
    else none

-- The digits after an optional sign. The code reads at most 12 of them, so no result overflows.
unfoldable pub digits : ℕ → List ℕ → Option ℕ
digits acc [] = some acc
digits acc (c ∷ cs) = elim (digit_value c) [ none ↦ none | some d ↦ digits (acc * 16 + d) cs ]

-- An empty text and a lone `+` are errors; a `+` in front of digits is allowed.
unfoldable pub from_str_radix : List ℕ → Option ℕ
unfolding digits
from_str_radix [] = none
from_str_radix (c ∷ []) = digits 0 (c ∷ [])
from_str_radix (c ∷ c' ∷ cs) = if c == b'+' then digits 0 (c' ∷ cs) else digits 0 (c ∷ c' ∷ cs)

pub length-hex : (n x : ℕ) → length (hex n x) ≡ n
unfolding hex
length-hex zero x = refl
length-hex (suc n) x =
    omega (arith, length-append (hex n (x / 16)) (digit_char (x % 16) ∷ []), length-hex n (x / 16))

digit_value-digit_char : (d : ℕ) → d < 16 → digit_value (digit_char d) ≡ some d
unfolding digit_value digit_char
digit_value-digit_char d h = ground arith

digits-append :
    (xs : List ℕ) (acc v c d : ℕ)
    → digits acc xs ≡ some v
    → digit_value c ≡ some d
    → digits acc (xs ++ (c ∷ [])) ≡ some (v * 16 + d)
unfolding digits
digits-append [] acc v c d h k = ground arith
digits-append (x ∷ xs) acc v c d h k = elim (Option-cases (digit_value x)) [
  | inl bad ↦ ground arith
  | inr (e, good) ↦ ground (arith, digits-append xs (acc * 16 + e) v c d)
]

pub digits-hex : (n x : ℕ) → x < 16 ^ n → digits 0 (hex n x) ≡ some x
unfolding digits hex
digits-hex zero x h = ap some (omega arith)
digits-hex (suc n) x h =
    let fits : x / 16 < 16 ^ n = omega (arith, pow-suc 16 n) in
    digits-append (hex n (x / 16)) 0 (x / 16) (digit_char (x % 16)) (x % 16)
      (digits-hex n (x / 16) fits) (digit_value-digit_char (x % 16) (omega arith))
    ∙ ap some (omega arith)

-- No digit is a dash or a plus sign.
abbrev pub IsPlain : ℕ → Type 0
IsPlain c = (c ≢ b'-') × (c ≢ b'+')

digit_char-IsPlain : (d : ℕ) → d < 16 → IsPlain (digit_char d)
unfolding digit_char
digit_char-IsPlain d h = ground arith

pub hex-IsPlain : (n x : ℕ) → All IsPlain (hex n x)
unfolding hex
hex-IsPlain zero x = tt
hex-IsPlain (suc n) x =
    All-append IsPlain (hex n (x / 16)) _ (hex-IsPlain n (x / 16))
      (digit_char-IsPlain (x % 16) (omega arith), tt)
