-- ===== src/Actions/Codes.antt =====
-- commandline/mod.rs: actions that end with the code 0 or 1, and the codes of
-- `compare_version`.
use framework_system.Base.{
  ℕ, ◌≤◌, List, [], ◌∷◌, Bool, true, false, ◌≡◌, refl, Option, none, some, Maybe, ok, err, panic,
  arith, ap, ◌∙◌,
}
use framework_system.Ec.Driver.{Driver}
use framework_system.Actions.Act.{Machine, World, Act, return, and_then}
use framework_system.Actions.Act.Inversion.{and_then-ok, return-ok}
use framework_system.Actions.Perform.{done}
use framework_system.Cli.Options.{
  HardwareDeviceType, bios, ec, pd0, pd1, rtm01, rtm23, ac_left, ac_right,
}
use framework_system.Esrt.Table.{EsrtTable, EsrtResourceEntry}
use framework_system.Actions.Compare.{
  verdict, compare_bios, compare_entries, compare_esrt, compare_device, compare_version,
}

module _ (D : Driver) (x : Machine) where
  -- A call that ends with a code ends with 0 or 1.
  abbrev pub IsSmall : Act D ℕ → Type 0
  IsSmall m = (code : ℕ) (w w' : World D) → m w ≡ some (ok code, w') → code ≤ 1

  pub and_then-IsSmall :
      {A : Type 0} (m : Act D A) (f : A → Act D ℕ)
      → ((a : A) → IsSmall (f a))
      → IsSmall (and_then D m f)
  and_then-IsSmall m f h code w w' e =
      let (a, w1, first, second) = and_then-ok D m f w e in h a code w1 w' second

  pub return-IsSmall : (n : ℕ) → n ≤ 1 → IsSmall (return D (ok n))
  return-IsSmall n h code w w' e = ground arith

  pub done-IsSmall : {A : Type 0} (m : Act D A) → IsSmall (done D x m)
  done-IsSmall m = and_then-IsSmall m _ λ a. return-IsSmall 0 (omega arith)

  compare_entries-small :
      (device : Option HardwareDeviceType) (version : List ℕ) (entries : List EsrtResourceEntry)
      → compare_entries device version entries ≤ 1
  unfolding compare_entries
  compare_entries-small device version [] = omega arith
  compare_entries-small device version (entry ∷ entries) =
      let ih = compare_entries-small device version entries in ground arith

  verdict-small : (b : Bool) → verdict b ≤ 1
  verdict-small true = omega arith
  verdict-small false = omega arith

  pub elim-IsSmall :
      {A : Type 0} (found : Option A) (f : A → Act D ℕ) (g : Act D ℕ)
      → ((a : A) → IsSmall (f a))
      → IsSmall g
      → IsSmall (elim found [ some a ↦ f a | none ↦ g ])
  elim-IsSmall none f g hf hg = hg
  elim-IsSmall (some a) f g hf hg = hf a

  esrt-IsSmall :
      (device : Option HardwareDeviceType) (version : List ℕ)
      → IsSmall (return D (compare_esrt x.esrt device version))
  unfolding compare_esrt
  esrt-IsSmall device version = behind x.esrt
    where
      behind : (m : Maybe EsrtTable) → IsSmall (return D (compare_esrt m device version))
      behind (ok table) code w w' e =
          let small = compare_entries-small device version table.entries in ground arith
      behind (err _) code w w' e = ground arith
      behind panic code w w' e = cc

  charging-IsSmall :
      {A : Type 0} (found : Option A) (text : A → Bool)
      → IsSmall (return D (elim found [ some both ↦ ok (verdict (text both)) | none ↦ ok 1 ]))
  charging-IsSmall none text = return-IsSmall 1 (omega arith)
  charging-IsSmall (some both) text = return-IsSmall _ (verdict-small (text both))

  compare_device-IsSmall :
      (device : Option HardwareDeviceType) (version : List ℕ)
      → IsSmall (compare_device D x device version)
  unfolding compare_device
  compare_device-IsSmall (some ec) version =
      and_then-IsSmall _ _ λ ver. return-IsSmall _ (verdict-small _)
  compare_device-IsSmall (some pd0) version = and_then-IsSmall _ _ λ found.
      elim-IsSmall found _ _ (λ both. return-IsSmall _ (verdict-small _))
        (esrt-IsSmall (some pd0) version)
  compare_device-IsSmall (some pd1) version = and_then-IsSmall _ _ λ found.
      elim-IsSmall found _ _ (λ both. return-IsSmall _ (verdict-small _))
        (esrt-IsSmall (some pd1) version)
  compare_device-IsSmall (some ac_left) version =
      and_then-IsSmall _ _ λ found. charging-IsSmall found _
  compare_device-IsSmall (some ac_right) version =
      and_then-IsSmall _ _ λ found. charging-IsSmall found _
  compare_device-IsSmall (some bios) version = esrt-IsSmall (some bios) version
  compare_device-IsSmall (some rtm01) version = esrt-IsSmall (some rtm01) version
  compare_device-IsSmall (some rtm23) version = esrt-IsSmall (some rtm23) version
  compare_device-IsSmall none version = esrt-IsSmall none version

  compare_bios-small :
      (device : Option HardwareDeviceType) (version : List ℕ) (n : ℕ)
      → compare_bios x device version ≡ ok (some n)
      → n ≤ 1
  unfolding compare_bios
  compare_bios-small device version n h = ground arith

  decided-IsSmall :
      (found : Option ℕ) (m : Act D ℕ)
      → ((n : ℕ) → found ≡ some n → n ≤ 1)
      → IsSmall m
      → IsSmall (elim found [ some code ↦ return D (ok code) | none ↦ m ])
  decided-IsSmall none m h hm = hm
  decided-IsSmall (some n) m h hm = return-IsSmall n (h n refl)

  pub compare_version-IsSmall :
      (device : Option HardwareDeviceType) (version : List ℕ)
      → IsSmall (compare_version D x device version)
  unfolding compare_version
  compare_version-IsSmall device version code w w' e =
      let (found, w1, first, second) =
        and_then-ok D (return D (compare_bios x device version)) _ w e in
      let (value, same) = return-ok D (compare_bios x device version) w first in
      decided-IsSmall found (compare_device D x device version)
        (λ n is_n. compare_bios-small device version n (value ∙ ap (λ f. ok f) is_n))
        (compare_device-IsSmall device version) code w1 w' second
