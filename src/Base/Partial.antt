-- ===== src/Base/Partial.antt =====
-- Option as the result of a partial function, and bytes.
use Prim.Native.Nat.{ℕ, ◌<◌}
use mathlib.Core.Option.{Option, none, some}

infixl 5 ◌>>=◌
abbrev pub ◌>>=◌ {ℓ κ} : {A : Type ℓ} {B : Type κ} → Option A → (A → Option B) → Option B
none >>= f = none
some a >>= f = f a

abbrev pub IsByte : ℕ → Type 0
IsByte b = b < 256
