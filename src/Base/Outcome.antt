-- ===== src/Base/Outcome.antt =====
-- Results of Go functions: a value or an error; and for code that can also panic, an outcome.
use mathlib.Core.Path.{◌≡◌, refl}
use mathlib.Core.Logic.{◌⊎◌, inl, inr}
use mathlib.Core.Option.{Option, none, some}

pub data Result {ℓ κ} (E : Type ℓ) (A : Type κ) : Type (ℓ ⊔ κ) where
  ok : A → Result E A
  err : E → Result E A

-- The error value, `none` for nil.
abbrev pub error_of {ℓ κ} : {E : Type ℓ} {A : Type κ} → Result E A → Option E
error_of (ok a) = none
error_of (err e) = some e

pub Result-cases {ℓ κ} :
    {E : Type ℓ} {A : Type κ} (r : Result E A) → ((a : A) × (r ≡ ok a)) ⊎ ((e : E) × (r ≡ err e))
Result-cases (ok a) = inl (a, refl)
Result-cases (err e) = inr (e, refl)

pub data Outcome {ℓ κ} (E : Type ℓ) (A : Type κ) : Type (ℓ ⊔ κ) where
  done : A → Outcome E A
  failed : E → Outcome E A
  panicked : Outcome E A

infixl 5 ◌>>=◌
abbrev pub ◌>>=◌ {ℓ κ κ'} :
    {E : Type ℓ} {A : Type κ} {B : Type κ'} → Outcome E A → (A → Outcome E B) → Outcome E B
done a >>= f = f a
failed e >>= f = failed e
panicked >>= f = panicked

pub Outcome-cases {ℓ κ} :
    {E : Type ℓ} {A : Type κ} (o : Outcome E A)
    → ((a : A) × (o ≡ done a)) ⊎ ((e : E) × (o ≡ failed e)) ⊎ (o ≡ panicked)
Outcome-cases (done a) = inl (a, refl)
Outcome-cases (failed e) = inr (inl (e, refl))
Outcome-cases panicked = inr (inr refl)
