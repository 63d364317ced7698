-- ===== src/Actions/Act/Inversion.antt =====
-- commandline/mod.rs: what a call that returned a value went through.
use framework_system.Base.{◌≡◌, refl, Option, none, some, Maybe, Result, ok, err, panic, arith}
use framework_system.Ec.Driver.{Driver, Call}
use framework_system.Actions.Act.{World, Act, return, after, and_then, ask}

module _ (D : Driver) where
  after-ok :
      {A B : Type 0} {b : B} {w' : World D} (f : A → Act D B) (r : Option (Maybe A × World D))
      → after D f r ≡ some (ok b, w')
      → (a : A) × (w1 : World D) × (r ≡ some (ok a, w1)) × (f a w1 ≡ some (ok b, w'))
  after-ok f none h = cc
  after-ok f (some (ok a, w)) h = (a, w, refl, h)
  after-ok f (some (err e, w)) h = cc
  after-ok f (some (panic, w)) h = cc

  pub and_then-ok :
      {A B : Type 0} {b : B} {w' : World D} (m : Act D A) (f : A → Act D B) (w : World D)
      → and_then D m f w ≡ some (ok b, w')
      → (a : A) × (w1 : World D) × (m w ≡ some (ok a, w1)) × (f a w1 ≡ some (ok b, w'))
  unfolding and_then
  and_then-ok m f w h = after-ok f (m w) h

  pub return-ok :
      {A : Type 0} {a : A} {w' : World D} (r : Maybe A) (w : World D)
      → return D r w ≡ some (ok a, w')
      → (r ≡ ok a) × (w ≡ w')
  return-ok r w h = ground arith

  pub ask-ok :
      {E A B : Type 0} {b : B} {w' : World D} (f : Result E A → Maybe B) (m : Call D E A)
      (w : World D)
      → ask D f m w ≡ some (ok b, w')
      → f (m w.0).0 ≡ ok b
  ask-ok f m w h = ground arith

  -- The state behind a call.
  pub ask_state :
      {E A B : Type 0} {r : Maybe B} {w' : World D} (f : Result E A → Maybe B) (m : Call D E A)
      (w : World D)
      → ask D f m w ≡ some (r, w')
      → (m w.0).1 ≡ w'.0
  ask_state f m w h = ground arith
