-- ===== src/Guid/NoPanic.antt =====
-- `parse_guid` unwraps the next part of the text without a check. The length test in front of it
-- and that of every part make this safe.
use framework_system.Base.{ℕ, suc, ◌+◌, ◌*◌, ◌≡◌, refl, arith, ◌==◌, ==_iff}
use framework_system.Base.{List, [], ◌∷◌, length, Bool-cases, Option-cases, inl, inr}
use framework_system.Base.{Result, ◌>>=◌, Returns}
use framework_system.Guid.{GuidError, extend, split, next_guid_int, parse_guid}
use framework_system.Guid.Hex.{from_str_radix}

-- The length of a text from its parts, and one more for each part.
total : List (List ℕ) → ℕ
total [] = 0
total (part ∷ parts) = suc (length part + total parts)

total-extend :
    (c n : ℕ) (parts : List (List ℕ)) → total parts ≡ suc n → total (extend c parts) ≡ suc (suc n)
unfolding total extend
total-extend c n [] e = absurd (omega arith)
total-extend c n (part ∷ parts) e = omega arith

total-split : (cs : List ℕ) → total (split cs) ≡ suc (length cs)
unfolding total split
total-split [] = refl
total-split (c ∷ cs) = ground (arith, total-split cs, total-extend c (length cs) (split cs))

next_guid_int-Returns :
    (len n : ℕ) (parts : List (List ℕ))
    (k : ℕ × List (List ℕ) → Result GuidError (ℕ × ℕ × ℕ × ℕ × ℕ))
    → total parts ≡ suc n
    → ((v : ℕ) (rest : List (List ℕ)) → len * 2 + total rest ≡ n → Returns (k (v, rest)))
    → Returns (next_guid_int len parts >>= k)
unfolding total next_guid_int
next_guid_int-Returns len n [] k e h = absurd (omega arith)
next_guid_int-Returns len n (part ∷ parts) k e h = elim (Bool-cases (length part == len * 2)) [
  | inr bad ↦ rw bad tt
  | inl fits ↦ elim (Option-cases (from_str_radix part)) [
    | inl bad ↦ rw (fits, bad) tt
    | inr (v, good) ↦ rw (fits, good) (h v parts (omega (arith, (==_iff _ _).0 fits)))
  ]
]

-- Parsing any text returns numbers or an error, and never panics.
pub parse_guid-Returns : (text : List ℕ) → Returns (parse_guid text)
unfolding parse_guid
parse_guid-Returns text = elim (Bool-cases (length text == 36)) [
  | inr bad ↦ rw bad tt
  | inl long ↦ rw long (
      next_guid_int-Returns 4 36 _ _ (omega (arith, total-split text, (==_iff _ _).0 long))
        λ a r1 e1. next_guid_int-Returns 2 27 _ _ (omega arith) λ b r2 e2.
          next_guid_int-Returns 2 22 _ _ (omega arith) λ c r3 e3.
            next_guid_int-Returns 2 17 _ _ (omega arith)
              λ d r4 e4. next_guid_int-Returns 6 12 _ _ (omega arith) λ e r5 e5. tt)
]
