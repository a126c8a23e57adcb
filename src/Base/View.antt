-- ===== src/Base/View.antt =====
-- A collection of objects as a function from their keys, for a Boolean test of keys.
use mathlib.Core.Path.{◌≡◌, refl}
use mathlib.Core.Logic.{◌≢◌, ◌↔◌, inl, inr}
use mathlib.Core.Bool.{Bool, true}
use mathlib.Core.Option.{Option, some}
use native.Mathlib.Omega.{arith}
use dockyards_flux.Base.Equality.{if◌then◌else◌}
use dockyards_flux.Base.Collections.{Bool-cases}

abbrev pub View {ℓ κ} : Type ℓ → Type κ → Type (ℓ ⊔ κ)
View K A = K → Option A

-- The test decides equality.
abbrev pub IsKeyTest {ℓ} : {K : Type ℓ} → (K → K → Bool) → Type ℓ
IsKeyTest {K = K} same = (a b : K) → (same a b ≡ true) ↔ (a ≡ b)

abbrev pub put {ℓ κ} : {K : Type ℓ} {A : Type κ} → (K → K → Bool) → K → A → View K A → View K A
put same key a view = λ k. if same k key then some a else view k

module _ {ℓ κ} {K : Type ℓ} {A : Type κ} (same : K → K → Bool) (test : IsKeyTest same) where
  pub put_self : (key : K) (a : A) (view : View K A) → put same key a view key ≡ some a
  put_self key a view = ground (arith, (test key key).1 refl)

  pub put-other :
      (key other : K) (a : A) (view : View K A)
      → other ≢ key
      → put same key a view other ≡ view other
  put-other key other a view ne = elim (Bool-cases (same other key)) [
    | inl equal ↦ absurd (ne ((test other key).0 equal))
    | inr differs ↦ ground (arith, differs)
  ]
