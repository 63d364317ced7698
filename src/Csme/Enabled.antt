-- ===== src/Csme/Enabled.antt =====
-- `enabled` (csme.rs) compares the text of the file as it is.
use framework_system.Base.{
  List, ℕ, [], ◌∷◌, ◌++◌, false, true, ◌≡◌, ◌≢◌, refl, ok, err, panic, Bool, Maybe, >>=-ok, All,
  ◌&&◌, ◌==◌, arith, ◌∙◌, ap, sym,
}
use framework_system.Util.{same_bytes}
use framework_system.Text.{lines}
use framework_system.Csme.{
  CsmeInfo, MeiEntry, three_versions, info_from, is_enabled, read_mei_entry,
}

and-false : (b : Bool) → b && false ≡ false
and-false true = refl
and-false false = refl

same_bytes-newline :
    (xs ys : List ℕ) → All (λ y. y ≢ 10) ys → same_bytes (xs ++ (10 ∷ [])) ys ≡ false
unfolding same_bytes
same_bytes-newline [] [] h = refl
same_bytes-newline [] (y ∷ ys) (other, h) = let e : (10 == y) ≡ false = ground arith in rw e refl
same_bytes-newline (x ∷ xs) [] h = refl
same_bytes-newline (x ∷ xs) (y ∷ ys) (other, h) =
    rw (same_bytes-newline xs ys h) (and-false (x == y))

differs : (n : ℕ) → (n == 10) ≡ false → n ≢ 10
differs n h = ground arith

is_enabled-newline : (state : List ℕ) → is_enabled (state ++ (10 ∷ [])) ≡ false
unfolding is_enabled
is_enabled-newline state =
    same_bytes-newline state (b'E' ∷ b'N' ∷ b'A' ∷ b'B' ∷ b'L' ∷ b'E' ∷ b'D' ∷ []) newline_free
  where
    newline_free : All (λ (y : ℕ). y ≢ 10) (b'E' ∷ b'N' ∷ b'A' ∷ b'B' ∷ b'L' ∷ b'E' ∷ b'D' ∷ [])
    newline_free = (
      differs 69 refl,
      (
        differs 78 refl,
        (
          differs 65 refl,
          (differs 66 refl, (differs 76 refl, (differs 69 refl, (differs 68 refl, tt)))),
        ),
      ),
    )

abbrev enabled_or : Maybe CsmeInfo → Bool
enabled_or (ok info) = info.enabled
enabled_or (err absent) = false
enabled_or panic = false

info_from-enabled :
    (dev_state fw_vers : List ℕ) (info : CsmeInfo)
    → info_from dev_state fw_vers ≡ ok info
    → info.enabled ≡ is_enabled dev_state
unfolding info_from
info_from-enabled dev_state fw_vers info run =
    let (vers, read, made) = >>=-ok (three_versions (lines fw_vers)) _ run in
    sym (ap enabled_or made)

-- If the text of `dev_state` ends in a newline, the engine is reported as not enabled, whatever the
-- state is.
pub read_mei_entry-newline :
    (e : MeiEntry) (info : CsmeInfo) (state : List ℕ)
    → e.dev_state ≡ ok (state ++ (10 ∷ []))
    → read_mei_entry e ≡ ok info
    → info.enabled ≡ false
unfolding read_mei_entry
read_mei_entry-newline e info state h run =
    let opened = rw h at run in
    let (text, read, rest) = >>=-ok e.fw_ver (info_from (state ++ (10 ∷ []))) opened in
    info_from-enabled (state ++ (10 ∷ [])) text info rest ∙ is_enabled-newline state
