-- ===== src/Smbios/Invariant.antt =====
-- The two global variables of smbios.rs and util.rs over all orders of calls.
use Prim.Native.String.{String}
use framework_system.Base.{Option, none, some, ◌≡◌, refl, Bool-cases, inl, inr, ok}
use framework_system.Ccgx.Device.{Platform}
use framework_system.Smbios.{
  Globals, get_platform, from_cache, from_config, look_up, remember, platform_of, config_set,
  set_if_empty, store, get_from, config_get, is_generic,
}

abbrev pub initial : Globals
initial = record { cached_platform = none; config = none }

-- A call by any part of the program.
pub data Step : Globals → Globals → Type 0 where
  asks : (product : Option String) (g : Globals) → Step g (get_platform product g).1
  sets : (platform : Platform) (g : Globals) → Step g (config_set platform g)
  gets : (product : Option String) (g : Globals) → Step g (config_get product g).1

pub data Reach : Globals → Type 0 where
  start : Reach initial
  next : {g g' : Globals} → Reach g → Step g g' → Reach g'

-- A platform in the cache comes with a configuration.
abbrev pub Configured : Option (Option Platform) → Option Platform → Type 0
Configured (some (some platform)) none = ⊥
Configured _ _ = Unit {0}

abbrev pub IsConfigured : Globals → Type 0
IsConfigured g = Configured g.cached_platform g.config

with_config : (cached : Option (Option Platform)) (p : Platform) → Configured cached (some p)
with_config none p = tt
with_config (some none) p = tt
with_config (some (some q)) p = tt

without_platform : (config : Option Platform) → Configured (some none) config
without_platform none = tt
without_platform (some p) = tt

set_if_empty-some :
    (config : Option Platform) (p : Platform) (g : Globals)
    → g.config ≡ config
    → (q : Platform) × ((set_if_empty config p g).config ≡ some q)
set_if_empty-some none p g e = (p, refl)
set_if_empty-some (some other) p g e = (other, e)

config_set-some : (p : Platform) (g : Globals) → (q : Platform) × ((config_set p g).config ≡ some q)
unfolding config_set
config_set-some p g = set_if_empty-some g.config p g refl

config_set-IsConfigured : (p : Platform) (g : Globals) → IsConfigured (config_set p g)
config_set-IsConfigured p g =
    let (q, e) = config_set-some p g in rw e (with_config (config_set p g).cached_platform q)

remember-IsConfigured : (p : Option Platform) (g : Globals) → IsConfigured (remember p g)
unfolding remember
remember-IsConfigured none g = without_platform g.config
remember-IsConfigured (some p) g = let (q, e) = config_set-some p g in rw e tt

look_up-IsConfigured :
    (product : Option String) (g : Globals) → IsConfigured g → IsConfigured (look_up product g).1
unfolding look_up
look_up-IsConfigured none g h = h
look_up-IsConfigured (some name) g h = remember-IsConfigured (platform_of name) g

from_config-IsConfigured :
    (config : Option Platform) (product : Option String) (g : Globals)
    → IsConfigured g
    → IsConfigured (from_config config product g).1
from_config-IsConfigured none product g h = look_up-IsConfigured product g h
from_config-IsConfigured (some p) product g h = elim (Bool-cases (is_generic p)) [
  | inl e ↦ rw e h
  | inr e ↦ rw e (look_up-IsConfigured product g h)
]

from_cache-IsConfigured :
    (cached : Option (Option Platform)) (product : Option String) (g : Globals)
    → IsConfigured g
    → IsConfigured (from_cache cached product g).1
from_cache-IsConfigured none product g h = from_config-IsConfigured g.config product g h
from_cache-IsConfigured (some p) product g h = h

get_platform-IsConfigured :
    (product : Option String) (g : Globals)
    → IsConfigured g
    → IsConfigured (get_platform product g).1
unfolding get_platform
get_platform-IsConfigured product g h = from_cache-IsConfigured g.cached_platform product g h

store-IsConfigured :
    (answer : Option Platform × Globals) → IsConfigured answer.1 → IsConfigured (store answer).1
store-IsConfigured (none, g) h = h
store-IsConfigured (some p, g) h = with_config g.cached_platform p

get_from-IsConfigured :
    (config : Option Platform) (product : Option String) (g : Globals)
    → IsConfigured g
    → IsConfigured (get_from config product g).1
get_from-IsConfigured (some p) product g h = h
get_from-IsConfigured none product g h =
    store-IsConfigured (get_platform product g) (get_platform-IsConfigured product g h)

Step-IsConfigured : {g g' : Globals} → Step g g' → IsConfigured g → IsConfigured g'
unfolding config_get
Step-IsConfigured (asks product g) h = get_platform-IsConfigured product g h
Step-IsConfigured (sets p g) h = config_set-IsConfigured p g
Step-IsConfigured (gets product g) h = get_from-IsConfigured g.config product g h

Reach-IsConfigured : {g : Globals} → Reach g → IsConfigured g
Reach-IsConfigured start = tt
Reach-IsConfigured (next reach step) = Step-IsConfigured step (Reach-IsConfigured reach)

stored_answer :
    (config : Option Platform) (p : Platform)
    → Configured (some (some p)) config
    → (q : Platform) × (config ≡ some q)
      × ((product : Option String) (g : Globals) → get_from config product g ≡ (ok q, g))
stored_answer none p h = absurd h
stored_answer (some q) p h = (q, refl, λ product g. refl)

-- In every state that the calls of the program can reach: once a platform is cached, a configuration
-- is stored, and `Config::get` returns it and changes nothing, whatever the table of the machine says.
pub config_get_stored :
    {g : Globals} (p : Platform)
    → Reach g
    → g.cached_platform ≡ some (some p)
    → (q : Platform) × (g.config ≡ some q)
      × ((product : Option String) → config_get product g ≡ (ok q, g))
unfolding config_get
config_get_stored {g = g} p reach e =
    let (q, stored, answer) = stored_answer g.config p (rw e at (Reach-IsConfigured reach)) in
    (q, stored, λ product. answer product g)
