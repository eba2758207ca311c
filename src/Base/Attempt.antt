-- ===== src/Base/Attempt.antt =====
-- What a call that may throw gives: its value, or the error, of the application (utils/errors.js) or
-- any other one, with its message.
use doc_query.Base.Errors.{AppError}
use mathlib.Core.Path.{◌≡◌, refl, ap}
use mathlib.Core.Logic.{◌⊎◌, inl, inr}
use mathlib.Core.Bool.{Bool, true, false}
use mathlib.Core.Option.{Option}
use mathlib.Core.List.{List}
use doc_query.Base.Tests.{if◌then◌else◌}
use Prim.Native.Nat.{ℕ}
use native.Mathlib.Omega.{arith}

pub data Failure : Type 0 where
  failure : Option AppError → List ℕ → Failure

pub data Attempt (A : Type 0) : Type 0 where
  got : A → Attempt A
  threw : Failure → Attempt A

unfoldable pub and_then : {A B : Type 0} → Attempt A → (A → Attempt B) → Attempt B
and_then (got a) k = k a
and_then (threw e) k = threw e

abbrev pub guard : Bool → Failure → Attempt (Unit {0})
guard true e = threw e
guard false e = got tt

pub Attempt-cases :
    {A : Type 0} (t : Attempt A) → ((a : A) × (t ≡ got a)) ⊎ ((e : Failure) × (t ≡ threw e))
Attempt-cases (got a) = inl (a, refl)
Attempt-cases (threw e) = inr (e, refl)

pub and_then-got :
    {A B : Type 0} {t : Attempt A} {k : A → Attempt B} {b : B}
    → and_then t k ≡ got b
    → (a : A) × (t ≡ got a) × (k a ≡ got b)
unfolding and_then
and_then-got {t = t} e = elim (Attempt-cases t) [
  | inl (a, same) ↦ (a, same, ground arith)
  | inr (x, same) ↦ absurd (ground arith)
]

pub got_inj : {A : Type 0} {a b : A} → got a ≡ got b → a ≡ b
got_inj {a = a} e = ap (λ t. elim t [ got x ↦ x | threw _ ↦ a ]) e

pub guard-got : (b : Bool) (e : Failure) (u : Unit {0}) → guard b e ≡ got u → b ≡ false
guard-got true e u h = ground arith
guard-got false e u h = refl

-- What holds of the value of an attempt, if it gives one.
abbrev pub Results : {A : Type 0} → (A → Type 0) → Attempt A → Type 0
Results P (got a) = P a
Results P (threw x) = Unit

pub Results-and_then :
    {A B : Type 0} (P : B → Type 0) (Q : A → Type 0) (t : Attempt A) (k : A → Attempt B)
    → Results Q t
    → ((a : A) → Q a → Results P (k a))
    → Results P (and_then t k)
unfolding and_then
Results-and_then P Q (got a) k h each = each a h
Results-and_then P Q (threw x) k h each = tt

pub Results-always :
    {A B : Type 0} (P : B → Type 0) (t : Attempt A) (k : A → Attempt B)
    → ((a : A) → Results P (k a))
    → Results P (and_then t k)
unfolding and_then
Results-always P (got a) k each = each a
Results-always P (threw x) k each = tt

pub Results-if :
    {A : Type 0} (P : A → Type 0) (b : Bool) (x y : Attempt A)
    → Results P x
    → Results P y
    → Results P (if b then x else y)
Results-if P true x y h k = h
Results-if P false x y h k = k

pub Results-unless :
    {A : Type 0} (P : A → Type 0) (b : Bool) (x y : Attempt A)
    → Results P x
    → (b ≡ false → Results P y)
    → Results P (if b then x else y)
Results-unless P true x y h k = h
Results-unless P false x y h k = k refl
