-- ===== src/Text/Decimal.antt =====
-- Decimal numbers as texts: what is printed is parsed back, and is left alone by `split` and `trim`.
use framework_system.Base.{
  ℕ, zero, suc, ◌+◌, ◌-◌, ◌*◌, ◌/◌, ◌%◌, ◌^◌, ◌<◌, ◌≤◌, List, [], ◌∷◌, ◌++◌, length, reverse, All,
  All-append, All-reverse, ◌≡◌, ◌≢◌, refl, subst, ap, ◌∙◌, some, true, false, ◌==◌, ==_iff,
  if◌then◌else◌, Bool-cases, inl, inr, arith, length-append,
}
use native.Mathlib.Nat.{pow-suc}
use mathlib.Core.List.{reverse-reverse}
use framework_system.Cli.Numbers.{decimal, parse_codes}
use framework_system.Text.{decimal_digits, display_number, split_at, trim_start, trim}

abbrev pub IsDigit : ℕ → Type 0
IsDigit c = (b'0' ≤ c) × (c ≤ b'9')

decimal-append :
    (bound acc d v : ℕ) (xs : List ℕ)
    → d < 10
    → v * 10 + d < bound
    → decimal bound acc xs ≡ some v
    → decimal bound acc (xs ++ ((b'0' + d) ∷ [])) ≡ some (v * 10 + d)
unfolding decimal
decimal-append bound acc d v [] small fits run = ground arith
decimal-append bound acc d v (x ∷ xs) small fits run =
    ground (arith, decimal-append bound (acc * 10 + (x - b'0')) d v xs small fits)

decimal-decimal_digits :
    (bound fuel n : ℕ)
    → n < 10 ^ fuel
    → n < bound
    → decimal bound 0 (decimal_digits fuel n) ≡ some n
unfolding decimal decimal_digits
decimal-decimal_digits bound zero n h k = ap some (omega arith)
decimal-decimal_digits bound (suc fuel) n h k = elim (Bool-cases (n / 10 == 0)) [
  | inl e ↦ let zero_rest : n / 10 ≡ 0 = (==_iff (n / 10) 0).0 e in rw e (ground arith)
  | inr e ↦
      let fits : n / 10 < 10 ^ fuel = omega (arith, pow-suc 10 fuel) in
      let rest = decimal-decimal_digits bound fuel (n / 10) fits (omega arith) in
      rw e (
        decimal-append bound 0 (n % 10) (n / 10) (decimal_digits fuel (n / 10)) (omega arith)
          (omega arith) rest
        ∙ ap some (omega arith))
]

decimal_digits-IsDigit : (fuel n : ℕ) → All IsDigit (decimal_digits fuel n)
unfolding decimal_digits
decimal_digits-IsDigit zero n = tt
decimal_digits-IsDigit (suc fuel) n = elim (Bool-cases (n / 10 == 0)) [
  | inl e ↦ rw e ((omega arith, omega arith), tt)
  | inr e ↦ rw e (
      All-append IsDigit (decimal_digits fuel (n / 10)) _ (decimal_digits-IsDigit fuel (n / 10))
        ((omega arith, omega arith), tt))
]

decimal_digits_pos : (fuel n : ℕ) → 0 < length (decimal_digits (suc fuel) n)
unfolding decimal_digits
decimal_digits_pos fuel n = omega (
  arith,
  length-append (if n / 10 == 0 then [] else decimal_digits fuel (n / 10)) ((b'0' + n % 10) ∷ []),
)

parse_codes-decimal :
    (bound : ℕ) (xs : List ℕ)
    → 0 < length xs
    → All IsDigit xs
    → parse_codes bound xs ≡ decimal bound 0 xs
unfolding parse_codes
parse_codes-decimal bound [] h p = absurd (omega arith)
parse_codes-decimal bound (c ∷ []) h p = refl
parse_codes-decimal bound (c ∷ d ∷ cs) h ((low, high), p) =
    let e : (c == b'+') ≡ false = ground arith in rw e refl

-- Between separators, and in front of the end.
pub split_at-append :
    (sep : ℕ) (xs ys : List ℕ)
    → All (λ c. c ≢ sep) xs
    → split_at sep (xs ++ (sep ∷ ys)) ≡ xs ∷ split_at sep ys
unfolding split_at
split_at-append sep [] ys h = let e : (sep == sep) ≡ true = (==_iff sep sep).1 refl in rw e refl
split_at-append sep (x ∷ xs) ys (other, h) =
    let e : (x == sep) ≡ false = ground arith in rw (e, split_at-append sep xs ys h) refl

pub split_at_last : (sep : ℕ) (xs : List ℕ) → All (λ c. c ≢ sep) xs → split_at sep xs ≡ xs ∷ []
unfolding split_at
split_at_last sep [] h = refl
split_at_last sep (x ∷ xs) (other, h) =
    let e : (x == sep) ≡ false = ground arith in rw (e, split_at_last sep xs h) refl

trim_start-digits : (xs : List ℕ) → All IsDigit xs → trim_start xs ≡ xs
unfolding trim_start
trim_start-digits [] h = refl
trim_start-digits (x ∷ xs) ((low, high), h) = ground arith

trim-digits : (xs : List ℕ) → All IsDigit xs → trim xs ≡ xs
unfolding trim
trim-digits xs h =
    rw (trim_start-digits xs h, trim_start-digits (reverse xs) (All-reverse IsDigit xs h))
      (reverse-reverse xs)

All-map : {P Q : ℕ → Type 0} (xs : List ℕ) → ((c : ℕ) → P c → Q c) → All P xs → All Q xs
All-map [] f h = tt
All-map (x ∷ xs) f (p, h) = (f x p, All-map xs f h)

module _ (n : ℕ) where
  -- No digit is a separator below the digits or above them.
  pub display_number-plain : (sep : ℕ) → (IsDigit sep → ⊥) → All (λ c. c ≢ sep) (display_number n)
  unfolding display_number
  display_number-plain sep other =
      All-map (decimal_digits 10 n) (λ c h e. other (subst IsDigit e h))
        (decimal_digits-IsDigit 10 n)

  module _ (fits : n < 2 ^ 32) where
    pub parse_codes-display_number : parse_codes (2 ^ 32) (display_number n) ≡ some n
    unfolding display_number
    parse_codes-display_number =
        parse_codes-decimal (2 ^ 32) (decimal_digits 10 n) (decimal_digits_pos 9 n)
          (decimal_digits-IsDigit 10 n)
        ∙ decimal-decimal_digits (2 ^ 32) 10 n (omega arith) fits

  pub trim-display_number : trim (display_number n) ≡ display_number n
  unfolding display_number
  trim-display_number = trim-digits (decimal_digits 10 n) (decimal_digits-IsDigit 10 n)
