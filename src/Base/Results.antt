-- ===== src/Base/Results.antt =====
-- What a Rust call can do: return a value, return an error (`None`, or `Err`), or panic.
use Prim.Native.Nat.{ℕ, ◌+◌, ◌-◌, ◌≤◌, ◌<◌}
use mathlib.Core.Path.{◌≡◌, refl}
use mathlib.Core.Logic.{inl, inr, ◌⊎◌}
use mathlib.Core.Bool.{Bool, true, false, ◌&&◌}
use mathlib.Core.Option.{Option, none, some}
use mathlib.Core.List.{List}
use native.Mathlib.Omega.{arith}
use framework_system.Base.Tests.{leb, le→leb, lt→not_leb, Bool-cases, if◌then◌else◌}
use framework_system.Base.Lists.{
  length, get_elem?, get_or, take, drop, length-take, length-drop, get_elem?-eq-get_or,
}

pub data Result {ℓ κ} (E : Type ℓ) (A : Type κ) : Type (ℓ ⊔ κ) where
  ok : A → Result E A
  err : E → Result E A
  panic : Result E A

-- A function that returns an `Option` and may panic: `err tt` stands for `None`.
abbrev pub Maybe : Type 0 → Type 0
Maybe A = Result (Unit {0}) A

-- `?`: what follows runs on the value, and the other results are handed on.
infixl 5 ◌>>=◌ ◌>>◌
abbrev pub ◌>>=◌ {ℓ κ μ} :
    {E : Type ℓ} {A : Type κ} {B : Type μ} → Result E A → (A → Result E B) → Result E B
r >>= next = elim r [ panic ↦ panic | err e ↦ err e | ok value ↦ next value ]

abbrev pub ◌>>◌ {ℓ μ} : {E : Type ℓ} {B : Type μ} → Result E (Unit {0}) → Result E B → Result E B
check >> next = check >>= (λ done. next)

-- `assert!`
abbrev pub assert {ℓ} : {E : Type ℓ} → Bool → Result E (Unit {0})
assert true = ok tt
assert false = panic

-- `Option::ok_or`, and `?` on an `Option`.
abbrev pub ok_or {ℓ κ} : {E : Type ℓ} {A : Type κ} → Option A → E → Result E A
ok_or none e = err e
ok_or (some a) e = ok a

-- `Option::unwrap` and `expect`
abbrev pub unwrap {ℓ κ} : {E : Type ℓ} {A : Type κ} → Option A → Result E A
unwrap none = panic
unwrap (some a) = ok a

-- `xs[i]`
unfoldable pub index {ℓ κ} : {E : Type ℓ} {A : Type κ} → List A → ℕ → Result E A
index xs i = unwrap (get_elem? xs i)

-- `xs[lo..hi]`
unfoldable pub slice {ℓ κ} : {E : Type ℓ} {A : Type κ} → List A → ℕ → ℕ → Result E (List A)
slice xs lo hi = if leb lo hi && leb hi (length xs) then ok (take (hi - lo) (drop lo xs)) else panic

-- `xs[lo..]`
unfoldable pub slice_from {ℓ κ} : {E : Type ℓ} {A : Type κ} → List A → ℕ → Result E (List A)
slice_from xs lo = if leb lo (length xs) then ok (drop lo xs) else panic

-- The call does not panic.
abbrev pub Returns {ℓ κ} : {E : Type ℓ} {A : Type κ} → Result E A → Type 0
Returns (ok a) = Unit {0}
Returns (err e) = Unit {0}
Returns panic = ⊥

pub length-take-drop {κ} :
    {A : Type κ} (xs : List A) (lo n : ℕ) → n ≤ length xs - lo → length (take n (drop lo xs)) ≡ n
length-take-drop xs lo n h = omega (arith, length-take n (drop lo xs), length-drop lo xs)

module _ {ℓ κ} {E : Type ℓ} {A : Type κ} (xs : List A) where
  -- `xs[lo..lo + n]`
  pub slice_in_range :
      (lo n : ℕ) → lo + n ≤ length xs → slice {E = E} xs lo (lo + n) ≡ ok (take n (drop lo xs))
  unfolding slice
  slice_in_range lo n h =
      let size : lo + n - lo ≡ n = omega arith in
      rw (le→leb lo (lo + n) (omega arith), le→leb (lo + n) (length xs) h, size) refl

  -- `xs[..n]`
  pub slice_prefix : (n : ℕ) → n ≤ length xs → slice {E = E} xs 0 n ≡ ok (take n xs)
  unfolding slice
  slice_prefix n h =
      let size : n - 0 ≡ n = omega arith in
      rw (le→leb 0 n (omega arith), le→leb n (length xs) h, size) refl

  pub slice_out_of_range : (lo hi : ℕ) → length xs < hi → slice {E = E} xs lo hi ≡ panic
  unfolding slice
  slice_out_of_range lo hi h = elim (Bool-cases (leb lo hi)) [
    | inl e ↦ rw (e, lt→not_leb hi (length xs) h) refl
    | inr e ↦ rw e refl
  ]

  pub slice_from_in_range : (lo : ℕ) → lo ≤ length xs → slice_from {E = E} xs lo ≡ ok (drop lo xs)
  unfolding slice_from
  slice_from_in_range lo h = rw (le→leb lo (length xs) h)

  pub slice_from_out_of_range : (lo : ℕ) → length xs < lo → slice_from {E = E} xs lo ≡ panic
  unfolding slice_from
  slice_from_out_of_range lo h = rw (lt→not_leb lo (length xs) h)

  pub index_in_range : (i : ℕ) (d : A) → i < length xs → index {E = E} xs i ≡ ok (get_or xs i d)
  unfolding index
  index_in_range i d h = rw (get_elem?-eq-get_or xs i d h)

-- What a bind with a value went through.
pub >>=-ok {ℓ κ μ} :
    {E : Type ℓ} {A : Type κ} {B : Type μ} {value : B} (r : Result E A) (next : A → Result E B)
    → (r >>= next) ≡ ok value
    → (first : A) × (r ≡ ok first) × (next first ≡ ok value)
>>=-ok panic next run = cc
>>=-ok (err e) next run = cc
>>=-ok (ok first) next run = (first, refl, run)

-- A bind returns if its first part does, and so does what follows each result.
pub Returns-bind {ℓ κ μ} :
    {E : Type ℓ} {A : Type κ} {B : Type μ} (m : Result E A) (k : A → Result E B)
    → Returns m
    → ((a : A) → m ≡ ok a → Returns (k a))
    → Returns (m >>= k)
Returns-bind (ok a) k h f = f a refl
Returns-bind (err e) k h f = tt
Returns-bind panic k h f = absurd h

pub Result-cases {ℓ κ} :
    {E : Type ℓ} {A : Type κ} (r : Result E A)
    → ((a : A) × (r ≡ ok a)) ⊎ (((e : E) × (r ≡ err e)) ⊎ (r ≡ panic))
Result-cases (ok a) = inl (a, refl)
Result-cases (err e) = inr (inl (e, refl))
Result-cases panic = inr (inr refl)
