-- ===== src/Base/Calls.antt =====
-- Calls that reach a state outside the program: a result and the next state.
use framework_system.Base.Results.{Result, ok, err, panic}

abbrev pub Call : Type 0 → Type 0 → Type 0 → Type 0
Call S E A = S → Result E A × S

-- A computation that does not reach the state.
abbrev pub pure : {S E A : Type 0} → Result E A → Call S E A
pure r s = (r, s)

infixl 4 ◌≫=◌
abbrev pub ◌≫=◌ : {S E A B : Type 0} → Call S E A → (A → Call S E B) → Call S E B
(m ≫= f) s = continue f (m s)
  where
    continue : {S E A B : Type 0} → (A → Call S E B) → Result E A × S → Result E B × S
    continue f (ok a, s') = f a s'
    continue f (err e, s') = (err e, s')
    continue f (panic, s') = (panic, s')

-- What is made of the result of a call.
abbrev pub map_result : {S E F A B : Type 0} → (Result E A → Result F B) → Call S E A → Call S F B
map_result f m s = rewrap f (m s)
  where
    rewrap : {S E F A B : Type 0} → (Result E A → Result F B) → Result E A × S → Result F B × S
    rewrap f (r, s') = (f r, s')

-- `expect`, and `unwrap` of a `Result`.
abbrev pub expect : {S E F A : Type 0} → Call S E A → Call S F A
expect m = map_result no_error m
  where
    no_error : {E F A : Type 0} → Result E A → Result F A
    no_error (ok a) = ok a
    no_error (err e) = panic
    no_error panic = panic

-- `let _ = ...` on a `Result`.
abbrev pub ignored : {S E F A : Type 0} → Call S E A → Call S F (Unit {0})
ignored m = map_result forget m
  where
    forget : {E F A : Type 0} → Result E A → Result F (Unit {0})
    forget (ok a) = ok tt
    forget (err e) = ok tt
    forget panic = panic
