-- ===== src/Controllers/Workload/Paths.antt =====
-- What `ensureValidJSON` of controllers/dockyardsworkload_controller.go leaves below each key of a map,
-- and below the keys of the maps in it.
use dockyards_flux.Base.{
  String, Option, none, some, List, [], ◌∷◌, ◌≡◌, ◌==◌, refl, arith, All, Option-cases, inl, inr,
  if◌then◌else◌,
}
use dockyards_flux.Base.Partial.{IsByte}
use dockyards_flux.Api.Objects.{Bytes}
use dockyards_flux.Api.Rendering.{
  Any, object, array, bytes, text, int64, float64, json_number, other, flag, null, Entries,
  no_entries, entry,
}
use dockyards_flux.Controllers.Workload.Json.{ensure_valid_json, ensure_valid_value}
use mathlib.Core.Option
use dockyards_flux.Controllers.Workload.Base64.{decode_string, decode_string-encode_to_string}

-- the value of a key of a map
unfoldable pub find : String → Entries → Option Any
find k no_entries = none
find k (entry k' v rest) = if k == k' then some v else find k rest

-- The value at the end of the keys, each of them but the first one of the map that was found by the one
-- before.
unfoldable pub at : List String → Any → Option Any
unfolding find
at [] v = some v
at (k ∷ ks) (object m) = elim (find k m) [ none ↦ none | some v ↦ at ks v ]
at (k ∷ ks) v = none

-- The value that is left of one: of a map some map, of a byte slice a text that the base64 decoder takes
-- back to these bytes, and of any other value, a list among them, the value itself.
abbrev pub IsMadeOf : Any → Any → Type 0
IsMadeOf (object m) v' = (m' : Entries) × (v' ≡ object m')
IsMadeOf (bytes t) v' = (x : Bytes) × (v' ≡ text x) × (decode_string x ≡ some t)
IsMadeOf v v' = v' ≡ v

-- Nothing of nothing, and what is left of something.
abbrev pub IsKept : Option Any → Option Any → Type 0
IsKept none o' = o' ≡ none
IsKept (some v) o' = (v' : Any) × (o' ≡ some v') × IsMadeOf v v'

-- The byte slice at the end of the keys, if there is one there, is one of bytes.
abbrev pub AreBytes : List String → Any → Type 0
AreBytes path v = (t : Bytes) → at path v ≡ some (bytes t) → All IsByte t

ensure_valid_value-IsMadeOf : (v : Any) → AreBytes [] v → IsMadeOf v (ensure_valid_value v)
unfolding ensure_valid_value at
ensure_valid_value-IsMadeOf (object m) h = (_, refl)
ensure_valid_value-IsMadeOf (bytes t) h = (_, refl, decode_string-encode_to_string t (h t refl))
ensure_valid_value-IsMadeOf (array vs) h = refl
ensure_valid_value-IsMadeOf (text t) h = refl
ensure_valid_value-IsMadeOf (int64 n) h = refl
ensure_valid_value-IsMadeOf (float64 n) h = refl
ensure_valid_value-IsMadeOf (json_number t) h = refl
ensure_valid_value-IsMadeOf (other t) h = refl
ensure_valid_value-IsMadeOf (flag b) h = refl
ensure_valid_value-IsMadeOf null h = refl

find-ensure_valid_json :
    (k : String) (m : Entries)
    → find k (ensure_valid_json m) ≡ Option.map ensure_valid_value (find k m)
unfolding find ensure_valid_json
find-ensure_valid_json k no_entries = refl
find-ensure_valid_json k (entry k' v rest) = ground (arith, find-ensure_valid_json k rest)

at-ensure_valid_value :
    (path : List String) (v : Any)
    → AreBytes path v
    → IsKept (at path v) (at path (ensure_valid_value v))
unfolding at ensure_valid_value
at-ensure_valid_value [] v h = (_, refl, ensure_valid_value-IsMadeOf v h)
at-ensure_valid_value (k ∷ ks) (object m) h = elim (Option-cases (find k m)) [
  | inl absent ↦ rw (find-ensure_valid_json k m, at) (rw (absent, at) refl)
  | inr (v, present) ↦
      rw (find-ensure_valid_json k m, at)
        (rw (present, at) (at-ensure_valid_value ks v (λ t e. h t (rw (present, at) e))))
]
at-ensure_valid_value (k ∷ ks) (bytes t) h = refl
at-ensure_valid_value (k ∷ ks) (array vs) h = refl
at-ensure_valid_value (k ∷ ks) (text t) h = refl
at-ensure_valid_value (k ∷ ks) (int64 n) h = refl
at-ensure_valid_value (k ∷ ks) (float64 n) h = refl
at-ensure_valid_value (k ∷ ks) (json_number t) h = refl
at-ensure_valid_value (k ∷ ks) (other t) h = refl
at-ensure_valid_value (k ∷ ks) (flag b) h = refl
at-ensure_valid_value (k ∷ ks) null h = refl

-- Making a map valid keeps, at the end of any keys that lead through maps, what is there: nothing of
-- nothing, a map of a map, of a byte slice a text that base64 takes back to its bytes, and any other
-- value, lists with all that is in them among these, as it is.
pub at-ensure_valid_json :
    (path : List String) (m : Entries)
    → AreBytes path (object m)
    → IsKept (at path (object m)) (at path (object (ensure_valid_json m)))
unfolding ensure_valid_value
at-ensure_valid_json path m h = at-ensure_valid_value path (object m) h
