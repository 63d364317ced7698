-- ===== src/Power/Ports/Versions.antt =====
-- The two parsers of PD versions: the one of power.rs, and those of ccgx/mod.rs.
use framework_system.Base.{
  ℕ, ◌/◌, ◌%◌, ◌<◌, List, [], ◌∷◌, bit_and, Result, ok, ◌>>=◌, ◌≡◌, refl, sym, ◌∙◌, arith, index,
}
use framework_system.Bytes.{high_nibble, low_nibble}
use framework_system.Ccgx.Versions.{
  base_version_from, app_version_from, application_from, ControllerVersion,
}
use framework_system.Power.Ports.{parse_pd_ver}

major_digit : (b : ℕ) → b < 256 → bit_and (b / 16) 0xF ≡ bit_and b 0xF0 / 16
major_digit b h =
    let small : (b / 16) % 16 ≡ b / 16 = omega arith in
    low_nibble (b / 16) (omega arith) ∙ small ∙ sym (high_nibble b h)

-- The versions of one controller, with the parsers of ccgx/mod.rs.
abbrev pub controller_version_from {ℓ} : {E : Type ℓ} → List ℕ → List ℕ → Result E ControllerVersion
controller_version_from base_bytes app_bytes = base_version_from base_bytes >>= λ base.
    app_version_from app_bytes >>= λ app. ok (record { base = base; app = app })

-- For 8 bytes with the application `nb`, of which the fourth and the last fit 8 bits, `parse_pd_ver`
-- gives what `BaseVersion::from` and `AppVersion::from` give for the first 4 bytes and the last 4.
pub parse_pd_ver-controller_version_from {ℓ} :
    {E : Type ℓ} (b0 b1 b2 b3 b6 b7 : ℕ)
    → b3 < 256
    → b7 < 256
    → parse_pd_ver {E = E} (b0 ∷ b1 ∷ b2 ∷ b3 ∷ b'b' ∷ b'n' ∷ b6 ∷ b7 ∷ [])
      ≡ controller_version_from (b0 ∷ b1 ∷ b2 ∷ b3 ∷ []) (b'b' ∷ b'n' ∷ b6 ∷ b7 ∷ [])
unfolding parse_pd_ver base_version_from app_version_from application_from index
parse_pd_ver-controller_version_from b0 b1 b2 b3 b6 b7 h k =
    rw (major_digit b3 h, major_digit b7 k) refl
