-- ===== src/Ec/SelfTest/Verdicts.antt =====
-- The verdicts of `test_ec_flash_read` (chromium_ec/mod.rs).
use Prim.Native.String.{String}
use framework_system.Base.{
  ℕ, List, [], ◌∷◌, >>=-ok, subst, not, ◌&&◌, take, slice_from, ◌||◌, Bool, true, false, none, ok,
  slice, ◌≡◌, ◌≢◌, Option-cases, inl, inr, refl, arith,
}
use framework_system.Util.{same_bytes}
use framework_system.Ec.Driver.{Driver, Ec, bind, pure}
use framework_system.Ec.Flash.{flash_notify, access_spi, access_spi_done}
use framework_system.Ec.Status.{EcError, EcResult}
use framework_system.Ec.SelfTest.{
  check_first_row, check_rw_row, check_program, check_flags, fails_if, Verdict, legacy_start,
  must_read_flash, test_program, test_ec_flash_read, outcome,
}

fails_if_keeps :
    (failed : Bool) (message : String) (numbers : List ℕ) (res : Verdict)
    → res ≢ none
    → fails_if failed message numbers res ≢ none
fails_if_keeps true message numbers res h = ground arith
fails_if_keeps false message numbers res h = h

-- No test takes back the error of an earlier one.
check_rw_row-keeps :
    (row : List ℕ) (res v : Verdict) → check_rw_row row res ≡ ok v → res ≢ none → v ≢ none
unfolding check_rw_row slice
check_rw_row-keeps row res v e h = ground arith

check_program-keeps :
    (row : List ℕ) (res v : Verdict) → check_program row res ≡ ok v → res ≢ none → v ≢ none
unfolding check_program slice
check_program-keeps row res v e h = ground arith

check_flags-keeps :
    (row : List ℕ) (res v : Verdict) → check_flags row res ≡ ok v → res ≢ none → v ≢ none
unfolding check_flags slice
check_flags-keeps row res v e h = ground arith

-- The first 4 bytes of a legacy image, and those of a Zephyr image.
abbrev pub known_start : List ℕ → Bool
known_start start =
    same_bytes start (0x10 ∷ 0x00 ∷ 0x00 ∷ 0xF7 ∷ [])
    || same_bytes start (0x5E ∷ 0x4D ∷ 0x3B ∷ 0x2A ∷ [])

passes-known :
    (ended old new : Bool)
    → fails_if ended "INVALID end" [] (fails_if (not old && not new) "INVALID start" [] none) ≡ none
    → (old || new) ≡ true
passes-known ended true new e = refl
passes-known ended false true e = refl
passes-known ended false false e = ground arith

slice-start : (row start : List ℕ) → slice {E = EcError} row 0 4 ≡ ok start → start ≡ take 4 row
unfolding slice
slice-start row start e = ground arith

ok-injective : (a b : Verdict) → ◌≡◌ {A = EcResult Verdict} (ok a) (ok b) → a ≡ b
ok-injective a b e = cc

check_first_row-known :
    (row : List ℕ) → check_first_row row none ≡ ok none → known_start (take 4 row) ≡ true
unfolding check_first_row
check_first_row-known row e =
    let (head, head_read, e1) = >>=-ok (slice row 0 8) _ e in
    let (start, start_read, e2) = >>=-ok (slice row 0 4) _ e1 in
    let (rest, rest_read, e3) = >>=-ok (slice_from row 4) _ e2 in
    let (middle, middle_read, e4) = >>=-ok (slice row 0x20 0x40) _ e3 in
    let known = passes-known _ (same_bytes start legacy_start) _ (ok-injective _ none e4) in
    subst (λ xs. known_start xs ≡ true) (slice-start row start start_read) known

outcome-ok : (v : Verdict) → outcome v ≡ ok tt → v ≡ none
outcome-ok v e = ground arith

module _ (D : Driver) where
  pub bind-ok :
      {A B : Type 0} (m : Ec D A) (f : A → Ec D B) (b : B) (s : D.State)
      → (bind D m f s).0 ≡ ok b
      → (a : A) × ((m s).0 ≡ ok a) × ((f a (m s).1).0 ≡ ok b)
  bind-ok m f b s h = ground arith

  test_program-keeps :
      (has_mec : Bool) (res v : Verdict) (s : D.State)
      → (test_program D has_mec res s).0 ≡ ok v
      → res ≢ none
      → v ≢ none
  unfolding test_program
  test_program-keeps false res v s e h = subst (λ x. x ≢ none) (ok-injective res v e) h
  test_program-keeps true res v s e h =
      let (row, read, checked) = bind-ok (must_read_flash D 0x1000 16) _ v s e in
      check_program-keeps row res v checked h

  -- If `test_ec_flash_read` succeeds, the first 4 bytes that it read from the flash are those of a
  -- legacy or of a Zephyr image: no later test takes back an error.
  pub test_ec_flash_read-known :
      (has_mec : Bool) (row : List ℕ) (s : D.State)
      → (must_read_flash D 0 0x80 (flash_notify D access_spi s).1).0 ≡ ok row
      → (test_ec_flash_read D has_mec s).0 ≡ ok tt
      → known_start (take 4 row) ≡ true
  unfolding test_ec_flash_read
  test_ec_flash_read-known has_mec row s read passed =
      let (a0, e0, p0) = bind-ok (flash_notify D access_spi) _ tt s passed in
      let s0 = (flash_notify D access_spi s).1 in
      let (first, e1, p1) = bind-ok (must_read_flash D 0 0x80) _ tt s0 p0 in
      let s1 = (must_read_flash D 0 0x80 s0).1 in
      let (res1, e2, p2) = bind-ok (pure D (check_first_row first none)) _ tt s1 p1 in
      let (rw_row, e3, p3) = bind-ok (must_read_flash D 0x40000 0x80) _ tt s1 p2 in
      let s2 = (must_read_flash D 0x40000 0x80 s1).1 in
      let (res2, e4, p4) = bind-ok (pure D (check_rw_row rw_row res1)) _ tt s2 p3 in
      let (res3, e5, p5) = bind-ok (test_program D has_mec res2) _ tt s2 p4 in
      let s3 = (test_program D has_mec res2 s2).1 in
      let (flags, e6, p6) = bind-ok (must_read_flash D _ 0x80) _ tt s3 p5 in
      let (res4, e7, p7) = bind-ok (pure D (check_flags flags res3)) _ tt _ p6 in
      let (a8, e8, p8) = bind-ok (flash_notify D access_spi_done) _ tt _ p7 in
      let same : first ≡ row = cc in
      elim (Option-cases res1) [
        | inl none_yet ↦ check_first_row-known row (
            subst (λ xs. check_first_row xs none ≡ ok none) same
              (subst (λ v. check_first_row first none ≡ ok v) none_yet e2))
        | inr (e, failed) ↦
            let kept1 : res1 ≢ none = cc in
            let kept2 = check_rw_row-keeps rw_row res1 res2 e4 kept1 in
            let kept3 = test_program-keeps has_mec res2 res3 s2 e5 kept2 in
            let kept4 = check_flags-keeps flags res3 res4 e7 kept3 in
            absurd (kept4 (outcome-ok res4 p8))
      ]
