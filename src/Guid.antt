-- ===== src/Guid.antt =====
-- framework_lib/src/guid.rs: the `Guid` struct and its conversions, and
-- guid_macros/src/lib.rs: the parser of the `guid!` macro.
pub mod Hex
pub mod Bytes
pub mod Canonical
pub mod NoPanic
use Hex.{hex, from_str_radix}
use framework_system.Base.{ℕ, ◌+◌, ◌*◌, ◌/◌, ◌%◌, ◌^◌, List, [], ◌∷◌, ◌++◌, take, drop, ltb}
use framework_system.Base.{
  Result, ok, err, panic, ◌>>=◌, ◌>>◌, assert, reverse, length, if◌then◌else◌, ◌==◌, ok_or,
}
use framework_system.Bytes.{from_le, to_le, from_be}

pub record Guid : Type 0 where
  pub a : ℕ
  pub b : ℕ
  pub c : ℕ
  pub d : List ℕ

-- `node.leading_zeros() >= 16` says that the node has at most 48 bits.
unfoldable pub from_values {ℓ} : {E : Type ℓ} → ℕ → ℕ → ℕ → ℕ → ℕ → Result E Guid
from_values time_low time_mid time_high_and_version clock_seq_and_variant node = do
  assert (ltb node (2 ^ 48))
  ok (record {
    a = time_low;
    b = time_mid;
    c = time_high_and_version;
    d =
        clock_seq_and_variant / 0x100 % 256
        ∷ clock_seq_and_variant % 0x100
        ∷ drop 2 (reverse (to_le 8 node));
  })

-- The argument is an array of 16 bytes.
unfoldable pub from_bytes : List ℕ → Guid
from_bytes bytes = record {
  a = from_le (take 4 bytes);
  b = from_le (take 2 (drop 4 bytes));
  c = from_le (take 2 (drop 6 bytes));
  d = take 8 (drop 8 bytes);
}

unfoldable pub to_bytes : Guid → List ℕ
to_bytes g = to_le 4 g.a ++ (to_le 2 g.b ++ (to_le 2 g.c ++ g.d))

-- The `Display` format, as character codes: `{a:08x}-{b:04x}-{c:04x}-{d:04x}-{e:012x}`.
unfoldable pub display : Guid → List ℕ
display g =
    let d = from_be 0 (take 2 g.d) in
    let e = from_be 0 (0 ∷ 0 ∷ take 6 (drop 2 g.d)) in
    hex 8 g.a ++ (b'-' ∷ hex 4 g.b ++ (b'-' ∷ hex 4 g.c ++ (b'-' ∷ hex 4 d ++ (b'-' ∷ hex 12 e))))

pub data GuidError : Type 0 where
  not_canonical bad_component not_hexadecimal : GuidError

-- Puts a character in front of the first part.
unfoldable pub extend : ℕ → List (List ℕ) → List (List ℕ)
extend c [] = (c ∷ []) ∷ []
extend c (part ∷ parts) = (c ∷ part) ∷ parts

-- `str::split('-')`, all parts at once.
unfoldable pub split : List ℕ → List (List ℕ)
split [] = [] ∷ []
split (c ∷ cs) = let rest = split cs in if c == b'-' then [] ∷ rest else extend c rest

-- `next_guid_int`: the next part as a number of `len` bytes, and the parts that remain. The
-- `unwrap` panics if no part is left.
unfoldable pub next_guid_int : ℕ → List (List ℕ) → Result GuidError (ℕ × List (List ℕ))
next_guid_int len [] = panic
next_guid_int len (part ∷ parts) =
    if length part == len * 2
    then (do value ← ok_or (from_str_radix part) not_hexadecimal; ok (value, parts))
    else err bad_component

unfoldable pub parse_guid : List ℕ → Result GuidError (ℕ × ℕ × ℕ × ℕ × ℕ)
parse_guid guid_str =
    if length guid_str == 36
    then (do
      (time_low, r1) ← next_guid_int 4 (split guid_str)
      (time_mid, r2) ← next_guid_int 2 r1
      (time_high_and_version, r3) ← next_guid_int 2 r2
      (clock_seq_and_variant, r4) ← next_guid_int 2 r3
      (node, r5) ← next_guid_int 6 r4
      ok (
        time_low % 2 ^ 32,
        time_mid % 2 ^ 16,
        time_high_and_version % 2 ^ 16,
        clock_seq_and_variant % 2 ^ 16,
        node,
      ))
    else err not_canonical

-- The `guid!` macro on a text: the parsed numbers handed to `from_values`.
unfoldable pub guid : List ℕ → Result GuidError Guid
guid text = do
  (time_low, time_mid, time_high_and_version, clock_seq_and_variant, node) ← parse_guid text
  from_values time_low time_mid time_high_and_version clock_seq_and_variant node
