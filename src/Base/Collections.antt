-- ===== src/Base/Collections.antt =====
-- Predicates and tests over lists, and splits on computed values that keep the equation.
use Prim.Native.Nat.{ℕ, suc}
use mathlib.Core.Path.{◌≡◌, refl, ap}
use mathlib.Core.Logic.{◌⊎◌, inl, inr}
use mathlib.Core.Bool.{Bool, true, false}
use mathlib.Core.Option.{Option, none, some}
use mathlib.Core.List.{List, [], ◌∷◌, ◌++◌, map, Memᴰ}

pub Bool-cases : (b : Bool) → (b ≡ true) ⊎ (b ≡ false)
Bool-cases true = inl refl
Bool-cases false = inr refl

module _ {ℓ} {A : Type ℓ} where
  pub Option-cases : (o : Option A) → (o ≡ none) ⊎ ((a : A) × (o ≡ some a))
  Option-cases none = inl refl
  Option-cases (some a) = inr (a, refl)

  abbrev pub is_some : Option A → Bool
  is_some none = false
  is_some (some a) = true

  -- `len(xs) == 0`
  abbrev pub is_empty : List A → Bool
  is_empty [] = true
  is_empty (x ∷ xs) = false

  abbrev pub length : List A → ℕ
  length [] = 0
  length (x ∷ xs) = suc (length xs)

module _ {ℓ κ} {A : Type ℓ} (P : A → Type κ) where
  abbrev pub All : List A → Type κ
  All [] = Unit
  All (x ∷ xs) = P x × All xs

  pub All-append : (xs ys : List A) → All xs → All ys → All (xs ++ ys)
  All-append [] ys hx hy = hy
  All-append (x ∷ xs) ys (p, hx) hy = (p, All-append xs ys hx hy)

pub Mem-map {ℓ κ} :
    {A : Type ℓ} {B : Type κ} (f : A → B) (x : A) (xs : List A) → Memᴰ x xs → Memᴰ (f x) (map f xs)
Mem-map f x _ (Memᴰ.head e) = Memᴰ.head (ap f e)
Mem-map f x _ (Memᴰ.tail m) = Memᴰ.tail (Mem-map f x _ m)

module _ {ℓ} {A : Type ℓ} (x : A) where
  pub Mem-append_left : (xs ys : List A) → Memᴰ x xs → Memᴰ x (xs ++ ys)
  Mem-append_left _ ys (Memᴰ.head e) = Memᴰ.head e
  Mem-append_left _ ys (Memᴰ.tail m) = Memᴰ.tail (Mem-append_left _ ys m)

  pub Mem-append_right : (xs ys : List A) → Memᴰ x ys → Memᴰ x (xs ++ ys)
  Mem-append_right [] ys m = m
  Mem-append_right (z ∷ xs) ys m = Memᴰ.tail (Mem-append_right xs ys m)
