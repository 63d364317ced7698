-- ===== src/Csme.antt =====
-- csme.rs: the version of the Converged Security and Management Engine.
pub mod Canonical
pub mod Enabled
use framework_system.Base.{
  ℕ, ◌^◌, List, [], ◌∷◌, ◌++◌, Bool, true, false, not, ◌==◌, ◌&&◌, if◌then◌else◌, Option, none,
  some, Maybe, Result, ok, err, panic, assert, index, unwrap, get_elem?, ◌>>=◌, ◌>>◌, length,
}
use framework_system.Cli.Numbers.{parse_codes, codes}
use framework_system.Util.{same_bytes}
use framework_system.Text.{split_at, trim, lines, display_number}

pub record CsmeVersion : Type 0 where
  pub platform : ℕ
  pub major : ℕ
  pub minor : ℕ
  pub hotfix : ℕ
  pub buildno : ℕ

pub record CsmeInfo : Type 0 where
  pub enabled : Bool
  pub main_ver : CsmeVersion
  pub recovery_ver : CsmeVersion
  pub fitc_ver : CsmeVersion

-- `next().unwrap().parse::<u32>().expect(..)` on the part with the given number.
unfoldable pub part_number : List (List ℕ) → ℕ → Maybe ℕ
part_number parts i = index parts i >>= λ part. unwrap (parse_codes (2 ^ 32) part)

-- `CsmeVersion::from(&str)`; parts behind the last one are not looked at.
unfoldable pub csme_version_from : List ℕ → Maybe CsmeVersion
csme_version_from fw_ver = do
  left ← part_number (split_at b':' fw_ver) 0
  text ← index (split_at b':' fw_ver) 1
  second ← part_number (split_at b'.' text) 0
  third ← part_number (split_at b'.' text) 1
  fourth ← part_number (split_at b'.' text) 2
  last ← index (split_at b'.' text) 3
  fifth ← unwrap (parse_codes (2 ^ 32) (trim last))
  ok (record { platform = left; major = second; minor = third; hotfix = fourth; buildno = fifth })

-- The `Display` format.
unfoldable pub display : CsmeVersion → List ℕ
display v =
    display_number v.platform
    ++ (b':' ∷ display_number v.major
        ++ (b'.' ∷ display_number v.minor
            ++ (b'.' ∷ display_number v.hotfix ++ (b'.' ∷ display_number v.buildno))))

-- An entry of the directory: whether it is a directory itself, and what reading its files gives.
pub record MeiEntry : Type 0 where
  pub is_dir : Bool
  pub dev_state : Maybe (List ℕ)
  pub fw_ver : Maybe (List ℕ)

unfoldable pub is_enabled : List ℕ → Bool
is_enabled dev_state = same_bytes dev_state (b'E' ∷ b'N' ∷ b'A' ∷ b'B' ∷ b'L' ∷ b'E' ∷ b'D' ∷ [])

-- The `next` of the versions of the lines: none behind the last line.
abbrev version_of_line : List (List ℕ) → ℕ → Maybe CsmeVersion
version_of_line fw_vers i = index fw_vers i >>= csme_version_from

-- The versions of the lines: three, and no more.
unfoldable pub three_versions : List (List ℕ) → Maybe (CsmeVersion × CsmeVersion × CsmeVersion)
three_versions fw_vers = do
  main_ver ← version_of_line fw_vers 0
  recovery_ver ← version_of_line fw_vers 1
  fitc_ver ← version_of_line fw_vers 2
  assert (length fw_vers == 3)
  ok (main_ver, recovery_ver, fitc_ver)

-- The information from the two texts.
unfoldable pub info_from : List ℕ → List ℕ → Maybe CsmeInfo
info_from dev_state fw_vers = three_versions (lines fw_vers) >>= λ vers. ok (record {
  enabled = is_enabled dev_state;
  main_ver = vers.0;
  recovery_ver = vers.1;
  fitc_ver = vers.2;
})

unfoldable pub read_mei_entry : MeiEntry → Maybe CsmeInfo
read_mei_entry e = e.dev_state >>= λ dev_state. e.fw_ver >>= λ fw_vers. info_from dev_state fw_vers

abbrev is_none {ℓ} : {A : Type ℓ} → Option A → Bool
is_none none = true
is_none (some a) = false

-- The loop over the directory; a second entry behind one with information is a panic.
unfoldable pub read_mei_entries : Option CsmeInfo → List (Maybe MeiEntry) → Maybe (Option CsmeInfo)
read_mei_entries info [] = ok info
read_mei_entries info (listed ∷ rest) = assert (is_none info) >> listed >>= λ e.
    (if e.is_dir then (read_mei_entry e >>= λ found. ok (some found)) else ok info) >>= λ next.
    read_mei_entries next rest

-- The directory, if it is one, as the result of `read_dir`; `err tt` is an I/O error.
unfoldable pub csme_from_sysfs : Option (Maybe (List (Maybe MeiEntry))) → Maybe CsmeInfo
csme_from_sysfs none = err tt
csme_from_sysfs (some dir) = dir >>= λ listing.
    read_mei_entries none listing >>= λ info. elim info [ none ↦ err tt | some found ↦ ok found ]
