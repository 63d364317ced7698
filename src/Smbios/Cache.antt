-- ===== src/Smbios/Cache.antt =====
-- The platform stays what it is (smbios.rs).
use Prim.Native.String.{String}
use framework_system.Base.{Option, none, some, Bool-cases, inl, inr, ◌≡◌, refl}
use framework_system.Ccgx.Device.{Platform}
use framework_system.Smbios.{
  Globals, get_platform, from_cache, from_config, look_up, remember, platform_of, is_generic,
}

-- The answer of a call is the answer of a later one, in the state that it left.
abbrev IsStable : Option String → Option Platform × Globals → Type 0
IsStable later answer = get_platform later answer.1 ≡ answer

module _ (later : Option String) where
  remember-IsStable : (p : Option Platform) (g : Globals) → IsStable later (p, remember p g)
  unfolding get_platform remember
  remember-IsStable none g = refl
  remember-IsStable (some platform) g = refl

  look_up-IsStable : (name : String) (g : Globals) → IsStable later (look_up (some name) g)
  unfolding look_up
  look_up-IsStable name g = remember-IsStable (platform_of name) g

  from_config-IsStable :
      (name : String) (g : Globals) (config : Option Platform)
      → g.cached_platform ≡ none
      → g.config ≡ config
      → IsStable later (from_config config (some name) g)
  unfolding get_platform
  from_config-IsStable name g none empty e = look_up-IsStable name g
  from_config-IsStable name g (some platform) empty e = elim (Bool-cases (is_generic platform)) [
    | inl generic ↦ rw generic (rw (empty, e, generic) refl)
    | inr special ↦ rw special (look_up-IsStable name g)
  ]

  from_cache-IsStable :
      (name : String) (g : Globals) (cached : Option (Option Platform))
      → g.cached_platform ≡ cached
      → IsStable later (from_cache cached (some name) g)
  unfolding get_platform
  from_cache-IsStable name g none e = from_config-IsStable name g g.config e refl
  from_cache-IsStable name g (some platform) e = rw e refl

  -- Once a product name was read, `get_platform` gives the same answer again, and changes nothing,
  -- whatever the table of the machine says later.
  pub get_platform-IsStable :
      (name : String) (g : Globals)
      → get_platform later (get_platform (some name) g).1 ≡ get_platform (some name) g
  unfolding get_platform
  get_platform-IsStable name g = from_cache-IsStable name g g.cached_platform refl
