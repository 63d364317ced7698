-- ===== src/Esrt.antt =====
-- esrt/mod.rs: the table of firmware resources.
pub mod Kinds
pub mod Names
pub mod Table
use framework_system.Base.{
  ℕ, ◌+◌, ◌*◌, ◌^◌, List, [], ◌∷◌, ltb, if◌then◌else◌, Option, none, some, Maybe, Result, ok, err,
  panic, index, ◌>>=◌,
}
use framework_system.Guid.{Guid, split, from_values}
use framework_system.Guid.Hex.{from_str_radix}
use framework_system.Text.{strip_newline}

-- `uN::from_str_radix(part, 16).ok()` with `bound = 2 ^ N`. The value only grows with the digits, so
-- it overflows on the way just if the result does.
unfoldable pub radix_16 : ℕ → List ℕ → Maybe ℕ
radix_16 bound part = elim (from_str_radix part) [
  | none ↦ err tt
  | some value ↦ if ltb value bound then ok value else err tt
]

-- Sections beyond the fifth are not looked at.
unfoldable pub guid_of_sections : List (List ℕ) → Maybe Guid
guid_of_sections sections = do
  s0 ← index sections 0
  time_low ← radix_16 (2 ^ 32) s0
  s1 ← index sections 1
  time_mid ← radix_16 (2 ^ 16) s1
  s2 ← index sections 2
  time_high_and_version ← radix_16 (2 ^ 16) s2
  s3 ← index sections 3
  clock_seq_and_variant ← radix_16 (2 ^ 16) s3
  s4 ← index sections 4
  node ← radix_16 (2 ^ 64) s4
  from_values time_low time_mid time_high_and_version clock_seq_and_variant node

unfoldable pub guid_from_str : List ℕ → Maybe Guid
guid_from_str string = guid_of_sections (split (strip_newline string))
