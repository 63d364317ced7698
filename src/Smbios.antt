-- ===== src/Smbios.antt =====
-- smbios.rs: which machine this is, and util.rs: the configuration. The two global variables are the
-- state.
pub mod Cache
pub mod Invariant
use Prim.Native.String.{String}
use text.Mathlib.Text.{◌==◌ as str_eq}
use framework_system.Base.{
  ℕ, List, [], ◌∷◌, Bool, true, false, not, ◌==◌, if◌then◌else◌, Option, none, some, Maybe, Result,
  ok, err, panic,
}
use framework_system.Ccgx.Device.{
  Platform, intel_gen11, intel_gen12, intel_gen13, intel_core_ultra1, framework13_amd, framework16,
  generic_framework,
}

pub data ConfigDigit0 : Type 0 where
  poc1 proto1 proto2 evt1 evt2 dvt1 dvt2 pvt : ConfigDigit0
  mass_production mass_production_b mass_production_c mass_production_d : ConfigDigit0
  mass_production_e mass_production_f : ConfigDigit0

-- `ConfigDigit0::from_u8`
unfoldable pub config_digit_from : ℕ → Option ConfigDigit0
config_digit_from n =
    if n == 0x01
    then some poc1
    else if n == 0x02
    then some proto1
    else if n == 0x03
    then some proto2
    else if n == 0x04
    then some evt1
    else if n == 0x05
    then some evt2
    else if n == 0x07
    then some dvt1
    else if n == 0x08
    then some dvt2
    else if n == 0x09
    then some pvt
    else if n == 0x0A
    then some mass_production
    else if n == 0x0B
    then some mass_production_b
    else if n == 0x0C
    then some mass_production_c
    else if n == 0x0D
    then some mass_production_d
    else if n == 0x0E
    then some mass_production_e
    else if n == 0x0F
    then some mass_production_f
    else none

-- The strings of the smbioslib crate: a text, or why there is none. The bytes that are no UTF-8 are
-- given as the text that they are replaced by.
pub data SmbiosString : Type 0 where
  found : String → SmbiosString
  field_out_of_bounds : SmbiosString
  invalid_string_number : SmbiosString
  utf8 : String → SmbiosString

-- The structs of the table: only the system information is looked at.
pub data DefinedStruct : Type 0 where
  system_information : SmbiosString → SmbiosString → DefinedStruct
  other_struct : DefinedStruct

unfoldable pub dmidecode_string_val : SmbiosString → Option String
dmidecode_string_val (found val) = if str_eq val "" then some "Not Specified" else some val
dmidecode_string_val field_out_of_bounds = none
dmidecode_string_val invalid_string_number = some "<BAD INDEX>"
dmidecode_string_val (utf8 val) = some val

-- The first product name; the table is that of `get_smbios`, outside FreeBSD.
unfoldable pub first_product : List DefinedStruct → Option String
first_product [] = none
first_product (system_information manufacturer product ∷ structs) =
    elim (dmidecode_string_val product) [ some name ↦ some name | none ↦ first_product structs ]
first_product (other_struct ∷ structs) = first_product structs

unfoldable pub get_product_name : Option (List DefinedStruct) → Option String
get_product_name none = none
get_product_name (some structs) = first_product structs

-- The loop of `is_framework`: the first manufacturer decides.
unfoldable pub first_manufacturer : List DefinedStruct → Bool
first_manufacturer [] = false
first_manufacturer (system_information manufacturer product ∷ structs) =
    elim (dmidecode_string_val manufacturer) [
      | some name ↦ str_eq name "Framework"
      | none ↦ first_manufacturer structs
    ]
first_manufacturer (other_struct ∷ structs) = first_manufacturer structs

-- `CACHED_PLATFORM`, and the platform in `CONFIG`.
pub record Globals : Type 0 where
  pub cached_platform : Option (Option Platform)
  pub config : Option Platform

abbrev pub is_generic : Platform → Bool
is_generic (generic_framework addrs ports mec) = true
is_generic _ = false

-- The match on the product name.
unfoldable pub platform_of : String → Option Platform
platform_of name =
    if str_eq name "Laptop"
    then some intel_gen11
    else if str_eq name "Laptop (12th Gen Intel Core)"
    then some intel_gen12
    else if str_eq name "Laptop (13th Gen Intel Core)"
    then some intel_gen13
    else if str_eq name "Laptop 13 (AMD Ryzen 7040Series)"
    then some framework13_amd
    else if str_eq name "Laptop 13 (AMD Ryzen 7040 Series)"
    then some framework13_amd
    else if str_eq name "Laptop 13 (Intel Core Ultra Series 1)"
    then some intel_core_ultra1
    else if str_eq name "Laptop 16 (AMD Ryzen 7040 Series)"
    then some framework16
    else none

abbrev pub set_if_empty : Option Platform → Platform → Globals → Globals
set_if_empty none platform g = record g { config = some platform }
set_if_empty (some other) platform g = g

-- `Config::set`: the first platform stays.
unfoldable pub config_set : Platform → Globals → Globals
config_set platform g = set_if_empty g.config platform g

-- What becomes of the platform that was looked up: the configuration and the cache.
unfoldable pub remember : Option Platform → Globals → Globals
remember none g = record g { cached_platform = some none }
remember (some platform) g = record (config_set platform g) {
  cached_platform = some (some platform);
}

-- The rest of `get_platform`, when nothing is cached. The `assert!` on the cache holds there.
unfoldable pub look_up : Option String → Globals → Option Platform × Globals
look_up none g = (none, g)
look_up (some name) g = (platform_of name, remember (platform_of name) g)

abbrev from_config : Option Platform → Option String → Globals → Option Platform × Globals
from_config none product g = look_up product g
from_config (some platform) product g =
    if is_generic platform then (some platform, g) else look_up product g

abbrev from_cache : Option (Option Platform) → Option String → Globals → Option Platform × Globals
from_cache (some platform) product g = (platform, g)
from_cache none product g = from_config g.config product g

-- `get_platform`, with the product name that the table has at that time.
unfoldable pub get_platform : Option String → Globals → Option Platform × Globals
get_platform product g = from_cache g.cached_platform product g

abbrev is_npc : Platform → Bool
is_npc framework13_amd = true
is_npc framework16 = true
is_npc intel_core_ultra1 = true
is_npc platform = false

-- chromium_ec/mod.rs: `has_mec`, where a platform that is not known is a panic.
unfoldable pub has_mec : Option String → Globals → Maybe Bool × Globals
has_mec product g = ask (get_platform product g)
  where
    ask_again : Option Platform × Globals → Maybe Bool × Globals
    ask_again (some platform, g'') = (ok (not (is_npc platform)), g'')
    ask_again (none, g'') = (panic, g'')

    ask : Option Platform × Globals → Maybe Bool × Globals
    ask (none, g') = (panic, g')
    ask (some (generic_framework addresses ports mec), g') = (ok mec, g')
    ask (some platform, g') = ask_again (get_platform product g')

-- A platform that was looked up replaces the configuration, which must be set in the end.
abbrev pub store : Option Platform × Globals → Maybe Platform × Globals
store (some platform, g) = (ok platform, record g { config = some platform })
store (none, g) = (set_or_panic g.config, g)
  where
    set_or_panic : Option Platform → Maybe Platform
    set_or_panic none = panic
    set_or_panic (some platform) = ok platform

abbrev pub get_from : Option Platform → Option String → Globals → Maybe Platform × Globals
get_from (some platform) product g = (ok platform, g)
get_from none product g = store (get_platform product g)

-- `Config::get`: a platform that is not known is a panic.
unfoldable pub config_get : Option String → Globals → Maybe Platform × Globals
config_get product g = get_from g.config product g

-- `is_framework`, with the table of that time.
unfoldable pub is_framework : Option (List DefinedStruct) → Globals → Bool × Globals
is_framework smbios g = decide (get_platform (get_product_name smbios) g)
  where
    decide : Option Platform × Globals → Bool × Globals
    decide (some platform, g') = (true, g')
    decide (none, g') = again (get_platform (get_product_name smbios) g')
      where
        again : Option Platform × Globals → Bool × Globals
        again (some platform, g'') = (true, g'')
        again (none, g'') =
            (elim smbios [ none ↦ false | some structs ↦ first_manufacturer structs ], g'')
