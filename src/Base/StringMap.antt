-- ===== src/Base/StringMap.antt =====
-- Go's `map[string]string`: an association list, or `none` for the nil map. A read of the nil map
-- finds nothing; a write to it panics.
use mathlib.Core.Path.{◌≡◌, refl, ap}
use mathlib.Core.Logic.{◌≢◌}
use mathlib.Core.Option.{Option, none, some}
use mathlib.Core.List.{List, [], ◌∷◌}
use Prim.Native.String.{String}
use native.Mathlib.Omega.{arith}
use dockyards_flux.Base.Equality.{◌==◌, if◌then◌else◌}
use dockyards_flux.Base.Outcome.{Outcome, done, panicked, ◌>>=◌}

abbrev pub Entries : Type 0
Entries = List (String × String)

abbrev pub StringMap : Type 0
StringMap = Option Entries

find : String → Entries → Option String
find k [] = none
find k ((j, v) ∷ m) = if j == k then some v else find k m

put : String → String → Entries → Entries
put k v [] = (k, v) ∷ []
put k v ((j, w) ∷ m) = if j == k then (k, v) ∷ m else (j, w) ∷ put k v m

-- `v, ok := m[k]`
unfoldable pub lookup : String → StringMap → Option String
unfolding find
lookup k none = none
lookup k (some m) = find k m

-- `m[k]`, the empty string where the key is missing
unfoldable pub get : String → StringMap → String
unfolding lookup
get k m = elim (lookup k m) [ none ↦ "" | some v ↦ v ]

-- `m[k] = v`
unfoldable pub set : {E : Type 0} → String → String → StringMap → Outcome E StringMap
unfolding put
set k v none = panicked
set k v (some m) = done (some (put k v m))

-- `if m == nil { m = make(map[string]string) }`
unfoldable pub make_if_nil : StringMap → StringMap
make_if_nil none = some []
make_if_nil (some m) = some m

find-put :
    (k j : String) (v : String) (m : Entries)
    → find j (put k v m) ≡ (if k == j then some v else find j m)
unfolding find put
find-put k j v [] = refl
find-put k j v ((i, w) ∷ m) = ground (arith, find-put k j v m)

-- Writing what is already there changes nothing.
put_self : (k : String) (v : String) (m : Entries) → find k m ≡ some v → put k v m ≡ m
unfolding find put
put_self k v [] h = cc
put_self k v ((i, w) ∷ m) h = ground (arith, put_self k v m)

-- A later write to a key replaces an earlier one, also across a write to another key.
put-put : (k v w : String) (m : Entries) → put k v (put k w m) ≡ put k v m
unfolding put
put-put k v w [] = ground arith
put-put k v w ((i, u) ∷ m) = ground (arith, put-put k v w m)

put-put_ne :
    (k j v w a : String) (m : Entries) → k ≢ j → put k v (put j a (put k w m)) ≡ put j a (put k v m)
unfolding put
put-put_ne k j v w a [] ne = ground (arith, ne)
put-put_ne k j v w a ((i, u) ∷ m) ne = ground (arith, ne, put-put_ne k j v w a m, put-put k v w m)

module _ {E : Type 0} where
  -- A read after a write.
  pub lookup-set :
      (k j v : String) (m m' : StringMap)
      → set {E = E} k v m ≡ done m'
      → lookup j m' ≡ (if k == j then some v else lookup j m)
  unfolding set lookup
  lookup-set k j v none m' h = cc
  lookup-set k j v (some m) none h = cc
  lookup-set k j v (some m) (some m') h = ground (arith, find-put k j v m)

  pub set_self : (k v : String) (m : StringMap) → lookup k m ≡ some v → set {E = E} k v m ≡ done m
  unfolding set lookup
  set_self k v none h = cc
  set_self k v (some m) h = ap (λ n. done (some n)) (put_self k v m h)

  -- The map is made if it is nil, and two keys are written one after the other.
  abbrev pub set_both : String → String → String → String → StringMap → Outcome E StringMap
  set_both k v k' v' m = set k v (make_if_nil m) >>= λ n. set k' v' n

  -- Written again, the two keys hold what was written last, as if nothing had been written before.
  pub set_both_twice :
      (k v w k' v' w' : String) (m n : StringMap)
      → k ≢ k'
      → set_both k w k' w' m ≡ done n
      → set_both k v k' v' n ≡ set_both k v k' v' m
  unfolding set make_if_nil
  set_both_twice k v w k' v' w' none n ne h =
      ground (arith, put-put_ne k k' v w w' [] ne, put-put k' v' w' (put k v []))
  set_both_twice k v w k' v' w' (some m) n ne h =
      ground (arith, put-put_ne k k' v w w' m ne, put-put k' v' w' (put k v m))

  -- A map that was made is not nil, so a write to it succeeds; nor is what it gives nil.
  pub set_total :
      (k v : String) (m : Entries) → (m' : Entries) × (set {E = E} k v (some m) ≡ done (some m'))
  unfolding set
  set_total k v m = (put k v m, refl)

pub lookup-make_if_nil : (k : String) (m : StringMap) → lookup k (make_if_nil m) ≡ lookup k m
unfolding lookup make_if_nil
lookup-make_if_nil k none = refl
lookup-make_if_nil k (some m) = refl

pub make_if_nil_total : (m : StringMap) → (entries : Entries) × (make_if_nil m ≡ some entries)
unfolding make_if_nil
make_if_nil_total none = ([], refl)
make_if_nil_total (some m) = (m, refl)

pub make_if_nil_self : (k v : String) (m : StringMap) → lookup k m ≡ some v → make_if_nil m ≡ m
unfolding lookup make_if_nil
make_if_nil_self k v none h = cc
make_if_nil_self k v (some m) h = refl
