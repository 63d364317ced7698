-- ===== src/Cli/Numbers.antt =====
-- `str::parse` of the standard library for unsigned integers and Booleans.
use Prim.Native.Char.{code}
use Prim.Native.String.{String}
use text.Mathlib.Text.{◌==◌ as str_eq}
use framework_system.Base.{
  ℕ, ◌+◌, ◌-◌, ◌*◌, ◌^◌, List, [], ◌∷◌, Option, none, some, Bool, true, false,
}
use framework_system.Base.{ltb, leb, ◌==◌, ◌&&◌, if◌then◌else◌}

abbrev pub codes : String → List ℕ
codes String.[] = []
codes (String.◌∷◌ c s) = code c ∷ codes s

-- The digits, with an error as soon as the value is not below the bound.
unfoldable pub decimal : ℕ → ℕ → List ℕ → Option ℕ
decimal bound acc [] = some acc
decimal bound acc (c ∷ cs) =
    let next = acc * 10 + (c - b'0') in
    let rest = decimal bound next cs in
    if leb b'0' c && leb c b'9' && ltb next bound then rest else none

-- `parse::<uN>()` with `bound = 2 ^ N`. A `+` in front of digits is allowed.
unfoldable pub parse_codes : ℕ → List ℕ → Option ℕ
unfolding decimal
parse_codes bound [] = none
parse_codes bound (c ∷ []) = decimal bound 0 (c ∷ [])
parse_codes bound (c ∷ d ∷ cs) =
    if c == b'+' then decimal bound 0 (d ∷ cs) else decimal bound 0 (c ∷ d ∷ cs)

unfoldable pub parse_u8 : String → Option ℕ
unfolding parse_codes
parse_u8 s = parse_codes (2 ^ 8) (codes s)

unfoldable pub parse_u16 : String → Option ℕ
unfolding parse_codes
parse_u16 s = parse_codes (2 ^ 16) (codes s)

unfoldable pub parse_bool : String → Option Bool
parse_bool s = if str_eq s "true" then some true else if str_eq s "false" then some false else none
