-- ===== src/Capsule/Firmware.antt =====
-- What capsule_content.rs finds in a capsule.
use framework_system.Base.{
  ℕ, zero, suc, ◌+◌, ◌-◌, ◌≤◌, List, [], ◌∷◌, length, take, drop, Bool-cases, true, inl, inr,
  Option, some, ok, slice, slice_from, ◌≡◌, ◌⊎◌, refl, sym, ap, ◌∙◌, arith, >>=-ok, length-take,
  length-drop, subst, ok_or, Option-cases, drop-drop,
}
use framework_system.Util.{same_bytes, find_from, find_sequence}
use framework_system.Capsule.Content.{
  find_ec_in_bios_cap, find_pd_in_bios_cap, iflash_needle, ec_needle, ec_len, ccg5_needle,
  ccg6_needle,
}

pub same_bytes-eq : (xs ys : List ℕ) → same_bytes xs ys ≡ true → xs ≡ ys
unfolding same_bytes
same_bytes-eq [] [] e = refl
same_bytes-eq [] (y ∷ ys) e = cc
same_bytes-eq (x ∷ xs) [] e = cc
same_bytes-eq (x ∷ xs) (y ∷ ys) e = ground (arith, same_bytes-eq xs ys)

-- A sequence that is found stands at the place that is returned, which is `i` and the bytes in front.
find_from-at :
    (needle : List ℕ) (i : ℕ) (xs : List ℕ) (j : ℕ)
    → find_from needle i xs ≡ some j
    → (k : ℕ) × (j ≡ i + k) × (take (length needle) (drop k xs) ≡ needle)
unfolding find_from
find_from-at [] i [] j e = (0, ground arith, refl)
find_from-at (c ∷ needle) i [] j e = cc
find_from-at needle i (b ∷ bs) j e =
    elim (Bool-cases (same_bytes (take (length needle) (b ∷ bs)) needle)) [
      | inl here ↦
          let found = rw here at e in
          let place : j ≡ i + 0 = ground arith in (0, place, same_bytes-eq _ needle here)
      | inr later ↦
          let (k, place, stands) = find_from-at needle (i + 1) bs j (rw later at e) in
          (suc k, omega (arith, place), stands)
    ]

find_sequence-at :
    (xs needle : List ℕ) (j : ℕ)
    → find_sequence xs needle ≡ some j
    → take (length needle) (drop j xs) ≡ needle
unfolding find_sequence
find_sequence-at xs needle j e =
    let (k, place, stands) = find_from-at needle 0 xs j e in
    let same : k ≡ j = omega (arith, place) in
    subst (λ n. take (length needle) (drop n xs) ≡ needle) same stands

take-take : (m n : ℕ) (xs : List ℕ) → m ≤ n → take m (take n xs) ≡ take m xs
take-take zero n xs h = refl
take-take (suc m) zero xs h = absurd (omega arith)
take-take (suc m) (suc n) [] h = refl
take-take (suc m) (suc n) (x ∷ xs) h = ap (λ (t : List ℕ). x ∷ t) (take-take m n xs (omega arith))

slice-ok :
    (xs ys : List ℕ) (lo n : ℕ)
    → slice {E = Unit {0}} xs lo (lo + n) ≡ ok ys
    → (ys ≡ take n (drop lo xs)) × (lo + n ≤ length xs)
unfolding slice
slice-ok xs ys lo n e =
    let size : lo + n - lo ≡ n = omega arith in let e' = rw size at e in ground arith

-- What is cut out at the place of a sequence starts with it.
cut_at :
    (xs needle bin : List ℕ) (lo n : ℕ)
    → take (length needle) (drop lo xs) ≡ needle
    → length needle ≤ n
    → slice {E = Unit {0}} xs lo (lo + n) ≡ ok bin
    → (length bin ≡ n) × (take (length needle) bin ≡ needle)
cut_at xs needle bin lo n stands fits e =
    let (cut, inside) = slice-ok xs bin lo n e in
    let size : length (take n (drop lo xs)) ≡ n =
      omega (arith, length-take n (drop lo xs), length-drop lo xs) in
    (
      ap length cut ∙ size,
      ap (take (length needle)) cut ∙ (take-take (length needle) n (drop lo xs) fits ∙ stands),
    )

ok_or-some : (o : Option ℕ) (a : ℕ) → ok_or {E = Unit {0}} o tt ≡ ok a → o ≡ some a
ok_or-some o a e = ground arith

slice_from-ok :
    (xs ys : List ℕ) (lo : ℕ) → slice_from {E = Unit {0}} xs lo ≡ ok ys → ys ≡ drop lo xs
unfolding slice_from
slice_from-ok xs ys lo e = ground arith

-- An EC image that is found in a capsule has 512 KiB, and starts with the 4 bytes of EC images.
pub find_ec_in_bios_cap-image :
    (xs bin : List ℕ)
    → find_ec_in_bios_cap xs ≡ ok bin
    → (length bin ≡ 0x80000) × (take 4 bin ≡ ec_needle)
unfolding find_ec_in_bios_cap
find_ec_in_bios_cap-image xs bin e =
    let (iflash, found, e1) = >>=-ok (ok_or (find_sequence xs iflash_needle) tt) _ e in
    let (rest, cut, e2) = >>=-ok (slice_from xs iflash) _ e1 in
    let (place, found2, e3) = >>=-ok (ok_or (find_sequence rest ec_needle) tt) _ e2 in
    let stands = find_sequence-at rest ec_needle place (ok_or-some _ place found2) in
    let behind = ap (drop place) (slice_from-ok xs rest iflash cut) ∙ drop-drop place iflash xs in
    cut_at xs ec_needle bin (iflash + place) ec_len (ap (take 4) (sym behind) ∙ stands)
      (omega arith) e3

-- A PD image that is found in a capsule has 128 KiB, and starts as images for CCG5 or for CCG6 do.
pub find_pd_in_bios_cap-image :
    (xs bin : List ℕ)
    → find_pd_in_bios_cap xs ≡ ok bin
    → (length bin ≡ 0x20000) × ((take 6 bin ≡ ccg5_needle) ⊎ (take 6 bin ≡ ccg6_needle))
unfolding find_pd_in_bios_cap
find_pd_in_bios_cap-image xs bin e = elim (Option-cases (find_sequence xs ccg5_needle)) [
  | inr (place, found) ↦
      let (size, start) =
        cut_at xs ccg5_needle bin place 0x20000 (find_sequence-at xs ccg5_needle place found)
          (omega arith) (rw (found, find_pd_in_bios_cap) at e) in
      (size, inl start)
  | inl missing ↦ elim (Option-cases (find_sequence xs ccg6_needle)) [
    | inr (place, found) ↦
        let (size, start) =
          cut_at xs ccg6_needle bin place 0x20000 (find_sequence-at xs ccg6_needle place found)
            (omega arith) (rw (missing, found, find_pd_in_bios_cap) at e) in
        (size, inr start)
    | inl none_at_all ↦ let e' = rw (missing, none_at_all, find_pd_in_bios_cap) at e in cc
  ]
]
