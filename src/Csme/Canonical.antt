-- ===== src/Csme/Canonical.antt =====
-- The text of a CSME version (csme.rs): parsing what is printed.
use framework_system.Base.{
  ℕ, ◌<◌, ◌^◌, List, [], ◌∷◌, ◌++◌, All, All-append, ◌≡◌, ◌≢◌, refl, ok, arith, index,
}
use framework_system.Text.{split_at, display_number}
use framework_system.Text.Decimal.{
  split_at-append, split_at_last, display_number-plain, parse_codes-display_number,
  trim-display_number,
}
use framework_system.Csme.{CsmeVersion, csme_version_from, part_number, display}

-- The ranges of the fields.
pub record IsVersion (v : CsmeVersion) : Type 0 where
  pub platform_fits : v.platform < 2 ^ 32
  pub major_fits : v.major < 2 ^ 32
  pub minor_fits : v.minor < 2 ^ 32
  pub hotfix_fits : v.hotfix < 2 ^ 32
  pub buildno_fits : v.buildno < 2 ^ 32

no_colon : (n : ℕ) → All (λ c. c ≢ b':') (display_number n)
no_colon n = display_number-plain n b':' (λ h. omega (arith, h.1))

no_dot : (n : ℕ) → All (λ c. c ≢ b'.') (display_number n)
no_dot n = display_number-plain n b'.' (λ h. omega (arith, h.0))

is_dot : (x : ℕ) → x ≡ b'.' → x ≢ b':'
is_dot x h = ground arith

module _ (a b c d : ℕ) where
  numbers : List ℕ
  numbers =
      display_number a
      ++ (b'.' ∷ display_number b ++ (b'.' ∷ display_number c ++ (b'.' ∷ display_number d)))

  no_colon_in_numbers : All (λ c. c ≢ b':') numbers
  unfolding numbers
  no_colon_in_numbers =
      let IsNoColon = λ (c : ℕ). c ≢ b':' in
      let dot = is_dot b'.' refl in
      All-append IsNoColon (display_number a) _ (no_colon a) (
        dot,
        All-append IsNoColon (display_number b) _ (no_colon b)
            (dot, All-append IsNoColon (display_number c) _ (no_colon c) (dot, no_colon d)),
      )

  split_at-numbers :
      split_at b'.' numbers
      ≡ display_number a ∷ display_number b ∷ display_number c ∷ display_number d ∷ []
  unfolding numbers
  split_at-numbers =
      rw
        (
          split_at-append b'.' (display_number a) _ (no_dot a),
          split_at-append b'.' (display_number b) _ (no_dot b),
          split_at-append b'.' (display_number c) _ (no_dot c),
          split_at_last b'.' (display_number d) (no_dot d),
        )
        refl

-- Parsing the printed text of a version whose numbers fit 32 bits gives the version.
pub csme_version_from-display :
    (v : CsmeVersion) → IsVersion v → csme_version_from (display v) ≡ ok v
unfolding csme_version_from display numbers part_number index
csme_version_from-display v h =
    rw
      (
        split_at-append b':' (display_number v.platform)
            (numbers v.major v.minor v.hotfix v.buildno) (no_colon v.platform),
        parse_codes-display_number v.platform h.platform_fits,
        split_at_last b':' (numbers v.major v.minor v.hotfix v.buildno)
            (no_colon_in_numbers v.major v.minor v.hotfix v.buildno),
        split_at-numbers v.major v.minor v.hotfix v.buildno,
        parse_codes-display_number v.major h.major_fits,
        parse_codes-display_number v.minor h.minor_fits,
        parse_codes-display_number v.hotfix h.hotfix_fits,
        trim-display_number v.buildno,
        parse_codes-display_number v.buildno h.buildno_fits,
      )
      refl
