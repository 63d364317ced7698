-- ===== src/Actions/Images.antt =====
-- commandline/mod.rs: what the options for images find in a file.
use Prim.Native.String.{String}
use framework_system.Base.{
  ℕ, List, [], ◌∷◌, Bool, true, false, if◌then◌else◌, Option, none, some, Maybe, ok, ◌>>=◌,
}
use framework_system.Guid.{Guid}
use framework_system.Ccgx.Versions.{SiliconId, ccg3, ccg5, ccg6, ccg8}
use framework_system.Ccgx.Binary.{PdFirmwareFile, read_versions}
use framework_system.EcBinary.{Captures, ImageVersionData, read_ec_version}
use framework_system.Capsule.{
  EfiCapsuleHeader, DisplayCapsule, parse_capsule_header, parse_ux_header, dump_winux_image,
}
use framework_system.Capsule.Content.{
  BiosCapsule, find_retimer_version, find_bios_version, find_ec_in_bios_cap, find_pd_in_bios_cap,
}
use framework_system.Esrt.Kinds.{
  FrameworkGuidKind, match_guid_kind, same_guid, winux_guid, tgl_retimer01, tgl_retimer23,
  adl_retimer01, adl_retimer23, rpl_retimer01, rpl_retimer23, tgl_bios_guid, adl_bios_guid,
  rpl_bios_guid, tgl_retimer01_guid, tgl_retimer23_guid, adl_retimer01_guid, adl_retimer23_guid,
  rpl_retimer01_guid, rpl_retimer23_guid,
}
use framework_system.Actions.Act.{caught}

-- The families in the order in which they are tried.
abbrev pub tried_families : List SiliconId
tried_families = ccg3 ∷ ccg8 ∷ ccg5 ∷ ccg6 ∷ []

unfoldable pub first_family : List ℕ → List SiliconId → Maybe (Option (SiliconId × PdFirmwareFile))
first_family image [] = ok none
first_family image (family ∷ families) =
    let rest = first_family image families in
    caught (read_versions image family) >>= λ found. elim found [
      | some versions ↦ ok (some (family, versions))
      | none ↦ rest
    ]

-- The family of the image and its versions, which are printed.
unfoldable pub analyze_ccgx_pd_fw : List ℕ → Maybe (Option (SiliconId × PdFirmwareFile))
unfolding first_family
analyze_ccgx_pd_fw image = first_family image tried_families

-- The version of the read-only half, and of the other.
unfoldable pub analyze_ec_fw :
    Captures → List ℕ → Maybe (Option ImageVersionData × Option ImageVersionData)
analyze_ec_fw captures image = caught (read_ec_version captures image true) >>= λ ro.
    caught (read_ec_version captures image false) >>= λ rw. ok (ro, rw)

-- The types that are printed.
pub data CapsuleType : Type 0 where
  tgl_insyde_bios adl_insyde_bios rpl_insyde_bios : CapsuleType
  tgl_retimer01_left tgl_retimer23_right adl_retimer01_left adl_retimer23_right : CapsuleType
  rpl_retimer01_left rpl_retimer23_right windows_ux unknown_type : CapsuleType

unfoldable pub capsule_type : Guid → CapsuleType
capsule_type guid =
    if same_guid guid tgl_bios_guid
    then tgl_insyde_bios
    else if same_guid guid adl_bios_guid
    then adl_insyde_bios
    else if same_guid guid rpl_bios_guid
    then rpl_insyde_bios
    else if same_guid guid tgl_retimer01_guid
    then tgl_retimer01_left
    else if same_guid guid tgl_retimer23_guid
    then tgl_retimer23_right
    else if same_guid guid adl_retimer01_guid
    then adl_retimer01_left
    else if same_guid guid adl_retimer23_guid
    then adl_retimer23_right
    else if same_guid guid rpl_retimer01_guid
    then rpl_retimer01_left
    else if same_guid guid rpl_retimer23_guid
    then rpl_retimer23_right
    else if same_guid guid winux_guid
    then windows_ux
    else unknown_type

-- The kinds whose version is looked for.
abbrev pub has_retimer_version : FrameworkGuidKind → Bool
has_retimer_version tgl_retimer01 = true
has_retimer_version tgl_retimer23 = true
has_retimer_version adl_retimer01 = true
has_retimer_version adl_retimer23 = true
has_retimer_version rpl_retimer01 = true
has_retimer_version rpl_retimer23 = true
has_retimer_version _ = false

abbrev is_windows_ux : CapsuleType → Bool
is_windows_ux windows_ux = true
is_windows_ux _ = false

-- What is printed of a capsule, and its header, which is returned.
pub record CapsuleReport : Type 0 where
  pub header : EfiCapsuleHeader
  pub type : CapsuleType
  pub ux_header : Option DisplayCapsule
  pub version : Option ℕ

abbrev only_if : {A : Type 0} → Bool → Maybe A → Maybe (Option A)
only_if wanted m = if wanted then caught m else ok none

-- `parse_ux_header` panics where its header is cut off, so `caught` only wraps its value.
unfoldable pub analyze_capsule : List ℕ → Maybe CapsuleReport
unfolding capsule_type match_guid_kind find_retimer_version
analyze_capsule image = do
  header ← parse_capsule_header image
  let type = capsule_type header.capsule_guid
  ux_header ← only_if (is_windows_ux type) (parse_ux_header image)
  version ←
      only_if (has_retimer_version (match_guid_kind header.capsule_guid))
        (find_retimer_version image)
  ok (record { header = header; type = type; ux_header = ux_header; version = version })

-- The image for the file of the option `dump`.
abbrev dump_image : Option String → List ℕ → DisplayCapsule → Maybe (Option (String × List ℕ))
dump_image none image ux = ok none
dump_image (some path) image ux = dump_winux_image image ux >>= λ bytes. ok (some (path, bytes))

-- What the option `capsule` writes to that file: the image of a Windows UX capsule.
unfoldable pub capsule_dump : Option String → List ℕ → Maybe (Option (String × List ℕ))
unfolding analyze_capsule
capsule_dump dump image = caught (analyze_capsule image) >>= λ found. elim found [
  | none ↦ ok none
  | some report ↦
      if same_guid report.header.capsule_guid winux_guid
      then (parse_ux_header image >>= dump_image dump image)
      else ok none
]

-- What the option `ho2_capsule` finds: the version of the BIOS, and the images of EC and PD.
pub record BiosReport : Type 0 where
  pub bios : Option BiosCapsule
  pub ec : Option (Option ImageVersionData × Option ImageVersionData)
  pub pd : Option (Option (SiliconId × PdFirmwareFile))

abbrev inside : {A : Type 0} → Maybe (List ℕ) → (List ℕ → Maybe A) → Maybe (Option A)
inside image analyze = caught image >>= λ found. elim found [
  | none ↦ ok none
  | some bytes ↦ (analyze bytes >>= λ report. ok (some report))
]

unfoldable pub analyze_bios_capsule : Captures → List ℕ → Maybe BiosReport
unfolding analyze_ec_fw analyze_ccgx_pd_fw
analyze_bios_capsule captures image = do
  bios ← caught (find_bios_version image)
  ec ← inside (find_ec_in_bios_cap image) (analyze_ec_fw captures)
  pd ← inside (find_pd_in_bios_cap image) analyze_ccgx_pd_fw
  ok (record { bios = bios; ec = ec; pd = pd })
