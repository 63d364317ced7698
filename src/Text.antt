-- ===== src/Text.antt =====
-- Functions of the standard library on texts, which are lists of character codes.
pub mod Decimal
use framework_system.Base.{
  ℕ, zero, suc, ◌+◌, ◌/◌, ◌%◌, List, [], ◌∷◌, ◌++◌, reverse, Bool, ltb, leb, ◌==◌, ◌&&◌, ◌||◌,
  if◌then◌else◌, Option, none, some,
}

-- `strip_suffix('\n').unwrap_or(string)`
unfoldable pub strip_newline : List ℕ → List ℕ
strip_newline [] = []
strip_newline (c ∷ []) = if c == 10 then [] else c ∷ []
strip_newline (c ∷ d ∷ cs) = c ∷ strip_newline (d ∷ cs)

-- The white space of ASCII.
abbrev pub is_space : ℕ → Bool
is_space c = (leb 9 c && leb c 13) || c == 32

unfoldable pub trim_start : List ℕ → List ℕ
trim_start [] = []
trim_start (c ∷ cs) = let rest = trim_start cs in if is_space c then rest else c ∷ cs

-- `str::trim`
unfoldable pub trim : List ℕ → List ℕ
unfolding trim_start
trim text = reverse (trim_start (reverse (trim_start text)))

-- Puts a character in front of the first part.
abbrev pub put_front : ℕ → List (List ℕ) → List (List ℕ)
put_front c [] = (c ∷ []) ∷ []
put_front c (part ∷ parts) = (c ∷ part) ∷ parts

-- `str::split` at a character, all parts at once.
unfoldable pub split_at : ℕ → List ℕ → List (List ℕ)
split_at sep [] = [] ∷ []
split_at sep (c ∷ cs) =
    let rest = split_at sep cs in if c == sep then [] ∷ rest else put_front c rest

-- `str::lines` on a text without carriage returns: the parts in front of newlines, and what stands
-- behind the last one unless it is empty.
unfoldable pub lines : List ℕ → List (List ℕ)
lines text = without_empty_end (split_at 10 text)
  where
    without_empty_end : List (List ℕ) → List (List ℕ)
    without_empty_end [] = []
    without_empty_end ([] ∷ []) = []
    without_empty_end (part ∷ parts) = part ∷ without_empty_end parts

-- The decimal digits of a number. The fuel counts digits.
unfoldable pub decimal_digits : ℕ → ℕ → List ℕ
decimal_digits zero n = []
decimal_digits (suc fuel) n =
    let more = decimal_digits fuel (n / 10) in
    (if n / 10 == 0 then [] else more) ++ ((b'0' + n % 10) ∷ [])

-- A number of at most 32 bits, which has 10 digits at most.
unfoldable pub display_number : ℕ → List ℕ
display_number n = decimal_digits 10 n
