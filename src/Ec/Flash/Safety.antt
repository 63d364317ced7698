-- ===== src/Ec/Flash/Safety.antt =====
-- What `reflash` (chromium_ec/mod.rs) refuses to do: the driver's state is the EC's.
use framework_system.Base.{List, ℕ, ok, err, panic, true, false, ◌≡◌, ◌≢◌, refl}
use framework_system.EcBinary.{Captures}
use framework_system.Ec.Status.{EcResult}
use framework_system.Ec.Driver.{Driver, Ec, bind, pure}
use framework_system.Ec.Flash.{EcFlashType, full, ro, rw, check_version, reflash}

module _ (D : Driver) where
  -- A check alone leaves the state as it is.
  bind-pure-state :
      {A B : Type 0} (r : EcResult A) (f : A → EcResult B) (s : D.State)
      → (bind D (pure D r) (λ a. pure D (f a)) s).1 ≡ s
  bind-pure-state (ok a) f s = refl
  bind-pure-state (err e) f s = refl
  bind-pure-state panic f s = refl

  -- A check that fails ends the call.
  bind-fails :
      (r : EcResult (Unit {0})) (f : Unit {0} → Ec D (Unit {0})) (s : D.State)
      → r ≢ ok tt
      → (bind D (pure D r) f s).1 ≡ s
  bind-fails (ok tt) f s h = absurd (h refl)
  bind-fails (err e) f s h = refl
  bind-fails panic f s h = refl

  two_checks :
      (p q : EcResult (Unit {0})) (s : D.State)
      → (bind D (pure D p) (λ _. bind D (pure D q) λ _. pure D (ok tt)) s).1 ≡ s
  two_checks (ok a) q s = bind-pure-state q (λ _. ok tt) s
  two_checks (err e) q s = refl
  two_checks panic q s = refl

  -- Unless the RW half is to be written and the image holds a valid RW version, `reflash` sends
  -- nothing: the driver's state is what it was.
  pub reflash-untouched :
      (captures : Captures) (image : List ℕ) (t : EcFlashType) (s : D.State)
      → (t ≡ rw → check_version D captures image false ≢ ok tt)
      → (reflash D captures image t s).1 ≡ s
  unfolding reflash
  reflash-untouched captures image full s h =
      two_checks (check_version D captures image true) (check_version D captures image false) s
  reflash-untouched captures image ro s h =
      bind-pure-state (check_version D captures image true) (λ _. ok tt) s
  reflash-untouched captures image rw s h =
      bind-fails (check_version D captures image false) _ s (h refl)
