-- ===== src/Tests/Machine.antt =====
-- The platform of a machine over some calls.
use Prim.Native.String.{String}
use framework_system.Base.{Option, ok, false, some, ◌≡◌, refl}
use framework_system.Ccgx.Device.{Platform, framework16}
use framework_system.Smbios.{
  has_mec, get_platform, config_get, platform_of, look_up, remember, config_set,
}
use framework_system.Smbios.Cache.{get_platform-IsStable}
use framework_system.Smbios.Invariant.{Reach, start, next, asks, initial, config_get_stored}

platform_remembered :
    get_platform (some "Laptop") (get_platform (some "Laptop 16 (AMD Ryzen 7040 Series)") initial).1
    ≡ get_platform (some "Laptop 16 (AMD Ryzen 7040 Series)") initial
platform_remembered =
    get_platform-IsStable (some "Laptop") "Laptop 16 (AMD Ryzen 7040 Series)" initial

reached : Reach (get_platform (some "Laptop 16 (AMD Ryzen 7040 Series)") initial).1
reached = next start (asks (some "Laptop 16 (AMD Ryzen 7040 Series)") initial)

cached :
    (get_platform (some "Laptop 16 (AMD Ryzen 7040 Series)") initial).1.cached_platform
    ≡ some (some framework16)
unfolding get_platform look_up remember platform_of config_set
cached = refl

config_get_stored_example :
    (q : Platform) × ((get_platform (some "Laptop 16 (AMD Ryzen 7040 Series)") initial).1.config
      ≡ some q)
    × ((product : Option String)
        → config_get product (get_platform (some "Laptop 16 (AMD Ryzen 7040 Series)") initial).1
          ≡ (ok q, (get_platform (some "Laptop 16 (AMD Ryzen 7040 Series)") initial).1))
config_get_stored_example = config_get_stored framework16 reached cached

framework16_has_no_mec : (has_mec (some "Laptop 16 (AMD Ryzen 7040 Series)") initial).0 ≡ ok false
unfolding has_mec get_platform look_up platform_of remember
framework16_has_no_mec = refl
