-- ===== src/Uefi/Checksum.antt =====
-- uefi/mod.rs: what `checksum_valid` accepts.
use framework_system.Base.{ℕ, List, [], ◌∷◌, Bool, true, ◌≡◌, ok, Maybe, >>=-ok, arith, All, ◌==◌}
use framework_system.Uefi.{Smbios, add_u8, sum_u8, single_bytes, checksum_valid}

add_u8-zero : (a b total : ℕ) → add_u8 true a b ≡ ok total → total ≡ 0 → (a ≡ 0) × (b ≡ 0)
add_u8-zero a b total h z = ground arith

is_zero : (n : ℕ) → Path (Maybe Bool) (ok (n == 0)) (ok true) → n ≡ 0
is_zero n h = ground arith

-- With overflow checks a sum is not smaller than its first value, and 0 only for zeros.
sum_u8-zero :
    (sum total : ℕ) (bytes : List ℕ)
    → sum_u8 true sum bytes ≡ ok total
    → total ≡ 0
    → (sum ≡ 0) × All (λ b. b ≡ 0) bytes
unfolding sum_u8
sum_u8-zero sum total [] h z = (ground arith, tt)
sum_u8-zero sum total (b ∷ bytes) h z =
    let (next, first, rest) = >>=-ok (add_u8 true sum b) (λ next. sum_u8 true next bytes) h in
    let (zero_next, zeros) = sum_u8-zero next total bytes rest z in
    let (zero_sum, zero_b) = add_u8-zero sum b next first zero_next in (zero_sum, (zero_b, zeros))

-- In a build with overflow checks `checksum_valid` is only true where each byte that it adds up is 0:
-- those of the anchor (`_SM_` in a real table), the single ones and the formatted ones.
pub checksum_valid-zeros :
    (t : Smbios)
    → checksum_valid true t ≡ ok true
    → All (λ b. b ≡ 0) t.anchor × All (λ b. b ≡ 0) (single_bytes t) × All (λ b. b ≡ 0) t.formatted
unfolding checksum_valid
checksum_valid-zeros t h =
    let (anchor_sum, e1, h1) = >>=-ok (sum_u8 true 0 t.anchor) _ h in
    let (sum, e2, h2) = >>=-ok (sum_u8 true anchor_sum (single_bytes t)) _ h1 in
    let (formatted_sum, e3, h3) = >>=-ok (sum_u8 true 0 t.formatted) _ h2 in
    let (total, e4, h4) = >>=-ok (add_u8 true sum formatted_sum) _ h3 in
    let (zero_sum, zero_formatted) = add_u8-zero sum formatted_sum total e4 (is_zero total h4) in
    let (zero_anchor, single) = sum_u8-zero anchor_sum sum (single_bytes t) e2 zero_sum in
    let (start, anchor) = sum_u8-zero 0 anchor_sum t.anchor e1 zero_anchor in
    let (start', formatted) = sum_u8-zero 0 formatted_sum t.formatted e3 zero_formatted in
    (anchor, single, formatted)
