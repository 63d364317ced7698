-- ===== src/Util/Sequence.antt =====
-- What `find_sequence` (util.rs) finds.
use framework_system.Base.{
  ℕ, ◌+◌, List, [], ◌∷◌, ◌++◌, length, take, take-append, none, true, ◌≡◌, ◌≢◌, refl, ==_iff,
  Bool-cases, inl, inr,
}
use framework_system.Util.{same_bytes, find_from, find_sequence}

pub same_bytes-same : (xs : List ℕ) → same_bytes xs xs ≡ true
unfolding same_bytes
same_bytes-same [] = refl
same_bytes-same (x ∷ xs) = rw ((==_iff x x).1 refl) (same_bytes-same xs)

same_bytes-take : (xs ys : List ℕ) → same_bytes (take (length xs) (xs ++ ys)) xs ≡ true
same_bytes-take xs ys = rw (take-append xs ys) (same_bytes-same xs)

find_from-found :
    (before needle after : List ℕ) (i : ℕ) → find_from needle i (before ++ (needle ++ after)) ≢ none
unfolding find_from
find_from-found [] [] [] i h = cc
find_from-found [] [] (x ∷ xs) i h = cc
find_from-found [] (x ∷ xs) after i h =
    let found = same_bytes-take (x ∷ xs) after in let e = rw found at h in cc
find_from-found (b ∷ before) needle after i h =
    let rest = before ++ (needle ++ after) in
    elim (Bool-cases (same_bytes (take (length needle) (b ∷ rest)) needle)) [
      | inl same ↦ let e = rw same at h in cc
      | inr other ↦ find_from-found before needle after (i + 1) (rw other at h)
    ]

-- A sequence that stands somewhere in the bytes is found.
pub find_sequence-found :
    (before needle after : List ℕ) → find_sequence (before ++ (needle ++ after)) needle ≢ none
unfolding find_sequence
find_sequence-found before needle after = find_from-found before needle after 0
