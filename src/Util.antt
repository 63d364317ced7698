-- ===== src/Util.antt =====
-- util.rs: looking for a sequence of bytes.
pub mod Sequence
use framework_system.Base.{
  ℕ, zero, suc, ◌+◌, List, [], ◌∷◌, length, take, leb, ◌==◌, ◌&&◌, Bool, true, false, Option, none,
  some, if◌then◌else◌,
}

-- `window == needle`
unfoldable pub same_bytes : List ℕ → List ℕ → Bool
same_bytes [] [] = true
same_bytes [] (y ∷ ys) = false
same_bytes (x ∷ xs) [] = false
same_bytes (x ∷ xs) (y ∷ ys) = x == y && same_bytes xs ys

-- `windows` and `position`: `i` is the number of the next window. There is none where fewer bytes are
-- left than the needle has.
unfoldable pub find_from : List ℕ → ℕ → List ℕ → Option ℕ
unfolding same_bytes
find_from needle i [] = if same_bytes [] needle then some i else none
find_from needle i (b ∷ bs) =
    let rest = find_from needle (i + 1) bs in
    if same_bytes (take (length needle) (b ∷ bs)) needle then some i else rest

-- For a needle that is not empty; `windows(0)` panics.
unfoldable pub find_sequence : List ℕ → List ℕ → Option ℕ
unfolding find_from
find_sequence haystack needle = find_from needle 0 haystack
