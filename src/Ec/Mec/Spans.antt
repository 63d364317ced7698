-- ===== src/Ec/Mec/Spans.antt =====
-- The bytes of a memory from an address on, and the arithmetic on addresses.
use framework_system.Base.{
  ℕ, zero, suc, ◌+◌, ◌*◌, ◌%◌, ◌^◌, ◌<◌, List, [], ◌∷◌, ◌++◌, length, Bool, false, ltb, ◌≡◌, refl,
  ap, ◌∙◌, ap₂, ok, arith, lt→ltb,
}
use framework_system.Ec.Mec.{}
use framework_system.Ec.Select.{add_u16}

-- Some bytes from an address on.
abbrev pub span : (ℕ → ℕ) → ℕ → ℕ → List ℕ
span at a zero = []
span at a (suc n) = at a ∷ span at (a + 1) n

pub span-append : (at : ℕ → ℕ) (a m n : ℕ) → span at a m ++ span at (a + m) n ≡ span at a (m + n)
span-append at a zero n = ap₂ (span at) (omega arith) (omega arith)
span-append at a (suc m) n =
    let count : suc (m + n) ≡ suc m + n = omega arith in
    ap (λ (xs : List ℕ). at a ∷ xs)
      (ap (λ b. span at (a + 1) m ++ span at b n) (omega arith) ∙ span-append at (a + 1) m n)
    ∙ ap (span at a) count

pub length-span : (at : ℕ → ℕ) (a n : ℕ) → length (span at a n) ≡ n
length-span at a zero = refl
length-span at a (suc n) = ap suc (length-span at (a + 1) n)

pub span-four :
    (at : ℕ → ℕ) (word n : ℕ)
    → at (4 * word)
        ∷ at (4 * word + 1)
        ∷ at (4 * word + 2)
        ∷ at (4 * word + 3)
        ∷ span at (4 * (word + 1)) (4 * n)
      ≡ span at (4 * word) (4 * suc n)
span-four at word n =
    let count : 4 * suc n ≡ suc (suc (suc (suc (4 * n)))) = omega arith in
    let second : 4 * word + 1 + 1 ≡ 4 * word + 2 = omega arith in
    let third : 4 * word + 2 + 1 ≡ 4 * word + 3 = omega arith in
    let fourth : 4 * word + 3 + 1 ≡ 4 * (word + 1) = omega arith in
    rw (count, second, third, fourth) refl

pub add_u16-small :
    {E : Type 0} (debug : Bool) (a b : ℕ) → a + b < 2 ^ 16 → add_u16 {E = E} debug a b ≡ ok (a + b)
add_u16-small debug a b h = rw (lt→ltb (a + b) (2 ^ 16) h) refl

pub whole_word : (a : ℕ) → ltb 0 (a % 4) ≡ false → a % 4 ≡ 0
whole_word a e = ground arith

pub few : (n : ℕ) → ltb 3 n ≡ false → n < 4
few n e = ground arith
