-- ===== src/Actions/Show.antt =====
-- ccgx/mod.rs: versions as texts, and the versions that a controller runs; String's bytes.
use framework_system.Base.{
  ℕ, zero, suc, ◌+◌, ◌-◌, ◌/◌, ◌%◌, List, [], ◌∷◌, ◌++◌, length, ltb, ◌==◌, if◌then◌else◌, Option,
  none, some, true, false, Bool,
}
use framework_system.Base.{replicate}
use framework_system.Util.{find_from}
use framework_system.Ccgx.Versions.{
  BaseVersion, AppVersion, ControllerVersion, ControllerFirmwares, active_firmware,
}
use framework_system.Ccgx.Device.{Platform, intel_gen11}

-- A code point in UTF-8.
unfoldable pub encode : ℕ → List ℕ
encode c =
    if ltb c 0x80
    then c ∷ []
    else if ltb c 0x800
    then (0xC0 + c / 64) ∷ (0x80 + c % 64) ∷ []
    else if ltb c 0x10000
    then (0xE0 + c / 4096) ∷ (0x80 + c / 64 % 64) ∷ (0x80 + c % 64) ∷ []
    else (0xF0 + c / 262144) ∷ (0x80 + c / 4096 % 64) ∷ (0x80 + c / 64 % 64) ∷ (0x80 + c % 64) ∷ []

-- `str::as_bytes`
unfoldable pub utf8 : List ℕ → List ℕ
unfolding encode
utf8 [] = []
utf8 (c ∷ cs) = encode c ++ utf8 cs

-- `str::contains`, on the bytes
abbrev pub contains : List ℕ → List ℕ → Bool
contains text part = elim (find_from part 0 text) [ none ↦ false | some i ↦ true ]

abbrev upper_digit : ℕ → ℕ
upper_digit d = if ltb d 10 then b'0' + d else b'A' + (d - 10)

-- The digits of `{:X}`. The fuel counts digits.
unfoldable pub upper_hex : ℕ → ℕ → List ℕ
upper_hex zero n = []
upper_hex (suc fuel) n =
    let more = upper_hex fuel (n / 16) in
    (if n / 16 == 0 then [] else more) ++ (upper_digit (n % 16) ∷ [])

-- At least `width` digits, of a number of at most 16 bits.
unfoldable pub padded_hex : ℕ → ℕ → List ℕ
unfolding upper_hex
padded_hex width n = let digits = upper_hex 4 n in replicate (width - length digits) b'0' ++ digits

-- `{:X}.{:X}.{:X}.{:03X}`
unfoldable pub show_base : BaseVersion → List ℕ
unfolding padded_hex
show_base v =
    padded_hex 1 v.major
    ++ (b'.'
        ∷ (padded_hex 1 v.minor
            ++ (b'.' ∷ (padded_hex 1 v.patch ++ (b'.' ∷ padded_hex 3 v.build_number)))))

-- `{:X}.{:X}.{:02X}`
unfoldable pub show_app : AppVersion → List ℕ
unfolding padded_hex
show_app v =
    padded_hex 1 v.major ++ (b'.' ∷ (padded_hex 1 v.minor ++ (b'.' ∷ padded_hex 2 v.circuit)))

-- On the 11th generation the base version tells the versions apart.
abbrev pub is_gen11 : Option Platform → Bool
is_gen11 (some intel_gen11) = true
is_gen11 _ = false

abbrev pub show_version : Option Platform → ControllerVersion → List ℕ
show_version platform v = if is_gen11 platform then show_base v.base else show_app v.app

-- `ControllerFirmwares::active_fw_ver`
unfoldable pub active_fw_ver : Option Platform → ControllerFirmwares → List ℕ
unfolding active_firmware show_base show_app
active_fw_ver platform firmwares = show_version platform (active_firmware firmwares)
