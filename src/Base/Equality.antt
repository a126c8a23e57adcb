-- ===== src/Base/Equality.antt =====
-- Go's `==` on strings and its negation, and the conditional.
use Prim.Native.Nat.{ℕ, compare, Ordering}
use Prim.Native.String.{String}
use mathlib.Core.Logic.{ite, dite}
use mathlib.Core.Bool.{Bool, true, false, not, Bool-discrete}
use text.Mathlib.Text
use text.Mathlib.TextEquality.{eq_iff}

infix 1 if◌then◌else◌
abbrev pub if◌then◌else◌ {ℓ} : {A : Type ℓ} → Bool → A → A → A
if true then x else y = x
if false then x else y = y

-- Shut in proofs, where a split on `s == t` yields the equation or its negation.
unfoldable pub string_dec : Discrete String
string_dec s t =
    dite (Bool-discrete (Text.◌==◌ s t) true) (λ same. yes ((eq_iff s t).0 same))
      (λ differ. no (λ p. differ ((eq_iff s t).1 p)))

infix 50 ◌==◌ ◌/=◌
abbrev pub ◌==◌ : String → String → Bool
s == t = ite (string_dec s t) true false

abbrev pub ◌/=◌ : String → String → Bool
s /= t = not (s == t)

abbrev pub eqb : ℕ → ℕ → Bool
eqb m n = elim (compare m n) [ Ordering.eq ↦ true | _ ↦ false ]

abbrev pub leb : ℕ → ℕ → Bool
leb m n = elim (compare m n) [ Ordering.gt ↦ false | _ ↦ true ]

abbrev pub ltb : ℕ → ℕ → Bool
ltb m n = elim (compare m n) [ Ordering.lt ↦ true | _ ↦ false ]
