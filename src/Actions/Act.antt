-- ===== src/Actions/Act.antt =====
-- What an option of the tool (commandline/mod.rs) does: calls of the EC, of which some may not end,
-- and files that are written. Printing is left out.
pub mod Inversion
use Prim.Native.String.{String}
use framework_system.Base.{
  ℕ, List, [], ◌∷◌, Bool, true, false, Option, none, some, Maybe, Result, ok, err, panic,
  if◌then◌else◌,
}
use framework_system.Ccgx.Device.{Platform}
use framework_system.EcBinary.{Captures}
use framework_system.Smbios.{
  Globals, DefinedStruct, get_product_name, get_platform, config_get, has_mec, is_framework,
}
use framework_system.Esrt.Table.{EsrtTable}
use framework_system.Csme.{CsmeInfo}
use framework_system.Ec.Status.{EcResult}
use framework_system.Ec.Driver.{Driver, Call}

-- The build and the machine, as far as the options look at them outside the EC.
pub record Machine : Type 0 where
  -- Overflow checks and debug assertions, and the feature `uefi`.
  pub debug : Bool
  pub uefi : Bool
  -- The structs of SMBIOS, and the globals of the program.
  pub smbios : Option (List DefinedStruct)
  pub globals : Globals
  -- The versions in SMBIOS's BIOS structs; `none` without SMBIOS.
  pub bios_versions : Option (List (List ℕ))
  pub esrt : Maybe EsrtTable
  pub csme : Maybe CsmeInfo
  -- The files, which of them can be written, and what became of the cards on USB: their listings,
  -- and an update with a file. They return at once in a build without the crates for them.
  pub read_file : String → Option (List ℕ)
  pub can_write : String → Bool
  pub list_cards : Maybe (Unit {0})
  pub list_audio_cards : Maybe (Unit {0})
  pub update_cards : List ℕ → Maybe (Unit {0})
  -- `str::to_uppercase`, the `regex` crate, and the rounds of the loops that wait for the EC.
  pub to_uppercase : List ℕ → List ℕ
  pub captures : Captures
  pub fuel : ℕ

-- `smbios::get_platform()`; later calls give the same (Smbios.Cache).
unfoldable pub platform_of_machine : Machine → Option Platform
platform_of_machine x = (get_platform (get_product_name x.smbios) x.globals).0

-- `Config::get()`, and chromium_ec's `has_mec`
unfoldable pub config_of_machine : Machine → Maybe Platform
config_of_machine x = (config_get (get_product_name x.smbios) x.globals).0

unfoldable pub mec_of_machine : Machine → Maybe Bool
mec_of_machine x = (has_mec (get_product_name x.smbios) x.globals).0

-- `smbios::is_framework()`
unfoldable pub is_framework_machine : Machine → Bool
is_framework_machine x = (is_framework x.smbios x.globals).0

-- The files that were written, the last one first.
abbrev pub Disk : Type 0
Disk = List (String × List ℕ)

module _ (D : Driver) where
  abbrev pub World : Type 0
  World = D.State × Disk

  -- `none` is a loop that has not ended, and `err tt` is `None`.
  abbrev pub Act : Type 0 → Type 0
  Act A = World → Option (Maybe A × World)

  abbrev pub return : {A : Type 0} → Maybe A → Act A
  return r w = some (r, w)

  abbrev pub after :
      {A B : Type 0} → (A → Act B) → Option (Maybe A × World) → Option (Maybe B × World)
  after f none = none
  after f (some (ok a, w)) = f a w
  after f (some (err e, w)) = some (err e, w)
  after f (some (panic, w)) = some (panic, w)

  unfoldable pub and_then : {A B : Type 0} → Act A → (A → Act B) → Act B
  and_then m f w = after f (m w)

  -- `if let Some(a)`: an absent value is `none`.
  abbrev pub attempt : {A : Type 0} → Act A → Act (Option A)
  attempt m w = found (m w)
    where
      found : {A : Type 0} → Option (Maybe A × World) → Option (Maybe (Option A) × World)
      found none = none
      found (some (ok a, w')) = some (ok (some a), w')
      found (some (err e, w')) = some (ok none, w')
      found (some (panic, w')) = some (panic, w')

  -- A call of the EC, and what is made of its result.
  abbrev pub ask : {E A B : Type 0} → (Result E A → Maybe B) → Call D E A → Act B
  ask f m (s, disk) = answer f disk (m s)
    where
      answer :
          {E A B : Type 0}
          → (Result E A → Maybe B)
          → Disk
          → Result E A × D.State
          → Option (Maybe B × World)
      answer f disk (r, s') = some (f r, (s', disk))

  -- The same for a call that may not end.
  abbrev pub wait :
      {A B : Type 0} → (EcResult A → Maybe B) → (D.State → Option (EcResult A × D.State)) → Act B
  wait f m (s, disk) = answer f disk (m s)
    where
      answer :
          {A B : Type 0}
          → (EcResult A → Maybe B)
          → Disk
          → Option (EcResult A × D.State)
          → Option (Maybe B × World)
      answer f disk none = none
      answer f disk (some (r, s')) = some (f r, (s', disk))

  -- `fs::write` with its `unwrap`s, or on UEFI `shell_write_file`, whose error is only printed.
  unfoldable pub write_file : Machine → String → List ℕ → Act (Unit {0})
  write_file x path bytes (s, disk) =
      if x.can_write path
      then some (ok tt, (s, (path, bytes) ∷ disk))
      else some (if x.uefi then ok tt else panic, (s, disk))

-- `if let Ok(a)`: an error is `none`.
abbrev pub caught : {E A : Type 0} → Result E A → Maybe (Option A)
caught (ok a) = ok (some a)
caught (err e) = ok none
caught panic = panic

-- An error is at most printed.
abbrev pub ignored : {E A : Type 0} → Result E A → Maybe (Unit {0})
ignored (ok a) = ok tt
ignored (err e) = ok tt
ignored panic = panic

-- `unwrap`
abbrev pub unwrapped : {E A : Type 0} → Result E A → Maybe A
unwrapped (ok a) = ok a
unwrapped (err e) = panic
unwrapped panic = panic
