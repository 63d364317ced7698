-- ===== src/Actions/Compare/Retimers.antt =====
-- commandline/mod.rs: which entries of the ESRT decide `compare_version` for a retimer.
use framework_system.Base.{
  ℕ, zero, suc, List, [], ◌∷◌, Bool, true, false, ◌≡◌, refl, ◌↔◌, ◌⊎◌, inl, inr, Option, some,
  Bool-cases, get_elem?, ◌||◌, ==_iff, arith, if◌then◌else◌,
}
use framework_system.Text.{display_number}
use framework_system.Guid.{Guid}
use framework_system.Util.{same_bytes}
use framework_system.Util.Sequence.{same_bytes-same}
use framework_system.Capsule.Firmware.{same_bytes-eq}
use framework_system.Cli.Options.{HardwareDeviceType, rtm01, rtm23}
use framework_system.Esrt.Kinds.{
  same_guid, tgl_retimer01_guid, adl_retimer01_guid, rpl_retimer01_guid, tgl_retimer23_guid,
  adl_retimer23_guid, rpl_retimer23_guid,
}
use framework_system.Esrt.Table.{EsrtResourceEntry}
use framework_system.Actions.Show.{contains}
use framework_system.Actions.Compare.{
  is_left_retimer, is_right_retimer, is_rtm01, is_rtm23, entry_matches, compare_entries,
}

retimers-disjoint : (g : Guid) → is_left_retimer g ≡ true → is_right_retimer g ≡ true → ⊥
retimers-disjoint g h k = ground arith

guid_fields : (g h : Guid) → g.a ≡ h.a → g.b ≡ h.b → g.c ≡ h.c → g.d ≡ h.d → g ≡ h
guid_fields g h ea eb ec ed = λ i. record { a = ea i; b = eb i; c = ec i; d = ed i }

same_guid-eq : (g h : Guid) → same_guid g h ≡ true → g ≡ h
same_guid-eq g h e =
    let (ea, eb, ec, ed) : (g.a ≡ h.a) × (g.b ≡ h.b) × (g.c ≡ h.c) × (same_bytes g.d h.d ≡ true) =
      ground arith in
    guid_fields g h ea eb ec (same_bytes-eq g.d h.d ed)

same_guid-same : (g h : Guid) → g ≡ h → same_guid g h ≡ true
same_guid-same g h e = rw e (
    rw
      (
        (==_iff h.a h.a).1 refl,
        (==_iff h.b h.b).1 refl,
        (==_iff h.c h.c).1 refl,
        same_bytes-same h.d,
      )
      refl)

one_of_three : (a b c : Bool) → (a || b || c) ≡ true → (a ≡ true) ⊎ ((b ≡ true) ⊎ (c ≡ true))
one_of_three a b c h = ground arith

-- One of three GUIDs.
abbrev pub IsOneOf : Guid → Guid → Guid → Guid → Type 0
IsOneOf x y z g = (g ≡ x) ⊎ ((g ≡ y) ⊎ (g ≡ z))

test-IsOneOf :
    (x y z g : Guid) → (same_guid g x || same_guid g y || same_guid g z) ≡ true → IsOneOf x y z g
test-IsOneOf x y z g h = elim (one_of_three (same_guid g x) (same_guid g y) (same_guid g z) h) [
  | inl e ↦ inl (same_guid-eq g x e)
  | inr (inl e) ↦ inr (inl (same_guid-eq g y e))
  | inr (inr e) ↦ inr (inr (same_guid-eq g z e))
]

IsOneOf-test :
    (x y z g : Guid) → IsOneOf x y z g → (same_guid g x || same_guid g y || same_guid g z) ≡ true
IsOneOf-test x y z g (inl e) = let same = same_guid-same g x e in ground arith
IsOneOf-test x y z g (inr (inl e)) = let same = same_guid-same g y e in ground arith
IsOneOf-test x y z g (inr (inr e)) = let same = same_guid-same g z e in ground arith

-- The GUIDs of the retimers of each side.
abbrev pub IsLeft : Guid → Type 0
IsLeft = IsOneOf tgl_retimer01_guid adl_retimer01_guid rpl_retimer01_guid

abbrev pub IsRight : Guid → Type 0
IsRight = IsOneOf tgl_retimer23_guid adl_retimer23_guid rpl_retimer23_guid

is_left_retimer-IsLeft : (g : Guid) → is_left_retimer g ≡ true → IsLeft g
is_left_retimer-IsLeft g h = test-IsOneOf _ _ _ g h

IsLeft-is_left_retimer : (g : Guid) → IsLeft g → is_left_retimer g ≡ true
IsLeft-is_left_retimer g h = IsOneOf-test _ _ _ g h

is_right_retimer-IsRight : (g : Guid) → is_right_retimer g ≡ true → IsRight g
is_right_retimer-IsRight g h = test-IsOneOf _ _ _ g h

IsRight-is_right_retimer : (g : Guid) → IsRight g → is_right_retimer g ≡ true
IsRight-is_right_retimer g h = IsOneOf-test _ _ _ g h

-- The entry is of the retimer that the device names, and its version holds the text.
abbrev pub IsWanted : Option HardwareDeviceType → List ℕ → EsrtResourceEntry → Type 0
IsWanted device version entry =
    (contains (display_number entry.fw_version) version ≡ true)
    × ((device ≡ some rtm01) × IsLeft entry.fw_class
        ⊎ (device ≡ some rtm23) × IsRight entry.fw_class)

is_rtm01-some : (device : Option HardwareDeviceType) → is_rtm01 device ≡ true → device ≡ some rtm01
is_rtm01-some device h = ground arith

is_rtm23-some : (device : Option HardwareDeviceType) → is_rtm23 device ≡ true → device ≡ some rtm23
is_rtm23-some device h = ground arith

abbrev decided : Bool → Bool → Bool → Bool → Bool → Bool
decided left right asks_left asks_right found =
    if left
    then (if asks_left then found else false)
    else if right
    then (if asks_right then found else false)
    else false

decided-true :
    (left right asks_left asks_right found : Bool)
    → decided left right asks_left asks_right found ≡ true
    → (found ≡ true) × ((asks_left ≡ true) × (left ≡ true) ⊎ (asks_right ≡ true) × (right ≡ true))
decided-true left right asks_left asks_right found h = ground arith

entry_matches-IsWanted :
    (device : Option HardwareDeviceType) (version : List ℕ) (entry : EsrtResourceEntry)
    → entry_matches device version entry ≡ true
    → IsWanted device version entry
unfolding entry_matches
entry_matches-IsWanted device version entry h =
    let (found, asked) =
      decided-true (is_left_retimer entry.fw_class) (is_right_retimer entry.fw_class)
        (is_rtm01 device) (is_rtm23 device) (contains (display_number entry.fw_version) version)
        h in
    (
      found,
      elim asked [
        | inl (asks, is) ↦ inl (is_rtm01-some device asks, is_left_retimer-IsLeft entry.fw_class is)
        | inr (asks, is) ↦
            inr (is_rtm23-some device asks, is_right_retimer-IsRight entry.fw_class is)
      ],
    )

not-left : (g : Guid) → is_right_retimer g ≡ true → is_left_retimer g ≡ false
not-left g h = elim (Bool-cases (is_left_retimer g)) [
  | inl is ↦ absurd (retimers-disjoint g is h)
  | inr is ↦ is
]

IsWanted-entry_matches :
    (device : Option HardwareDeviceType) (version : List ℕ) (entry : EsrtResourceEntry)
    → IsWanted device version entry
    → entry_matches device version entry ≡ true
unfolding entry_matches
IsWanted-entry_matches device version entry (found, inl (asks, is)) =
    rw (IsLeft-is_left_retimer entry.fw_class is, asks, found) refl
IsWanted-entry_matches device version entry (found, inr (asks, is)) =
    let right = IsRight-is_right_retimer entry.fw_class is in
    rw (not-left entry.fw_class right, right, asks, found) refl

-- A wanted entry that the first one is not stands behind it.
later :
    (device : Option HardwareDeviceType) (version : List ℕ) (entries : List EsrtResourceEntry)
    (entry : EsrtResourceEntry)
    → entry_matches device version entry ≡ false
    → (i : ℕ) (found : EsrtResourceEntry) → get_elem? (entry ∷ entries) i ≡ some found
    → IsWanted device version found
    → (i : ℕ) × (found : EsrtResourceEntry) × (get_elem? entries i ≡ some found)
      × IsWanted device version found
later device version entries entry differs zero found at_i wanted =
    let it_matches = IsWanted-entry_matches device version found wanted in
    let same : entry ≡ found = cc in absurd cc
later device version entries entry differs (suc i) found at_i wanted = (i, found, at_i, wanted)

-- For a device and a text, the loop of `compare_version` over the entries of the ESRT gives 0 exactly
-- if one of them has the GUID of TGL, ADL or RPL for the retimer that the device names, and its version
-- in decimal holds the text; otherwise it gives 1.
pub compare_entries-IsWanted :
    (device : Option HardwareDeviceType) (version : List ℕ) (entries : List EsrtResourceEntry)
    → ((compare_entries device version entries ≡ 0) ↔ (
        (i : ℕ) × (entry : EsrtResourceEntry) × (get_elem? entries i ≡ some entry)
        × IsWanted device version entry))
      × ((compare_entries device version entries ≡ 0)
          ⊎ (compare_entries device version entries ≡ 1))
unfolding compare_entries
compare_entries-IsWanted device version [] =
    (((λ e. absurd (omega arith)), λ (i, entry, at_i, wanted). cc), inr refl)
compare_entries-IsWanted device version (entry ∷ entries) =
    let ((forth, back), codes) = compare_entries-IsWanted device version entries in
    elim (Bool-cases (entry_matches device version entry)) [
      | inl matches ↦ rw matches (
        (λ e. (0, entry, refl, entry_matches-IsWanted device version entry matches), λ _. refl),
        inl refl,
      )
      | inr differs ↦ rw differs (
        (
          λ e. let (i, found, at_i, wanted) = forth e in (suc i, found, at_i, wanted),
          λ (i, found, at_i, wanted).
              back (later device version entries entry differs i found at_i wanted),
        ),
        codes,
      )
    ]
