-- ===== src/Controllers/Workload/Lists.antt =====
-- What `ensureValidJSON` of controllers/dockyardsworkload_controller.go cannot make valid: byte slices
-- below lists, and values of types that JSON does not have, at which `SetNestedMap` panics.
use dockyards_flux.Base.{Bool, true, false, ◌&&◌, ◌≡◌, ◌↔◌, refl, arith}
use dockyards_flux.Base.Outcome.{panicked}
use dockyards_flux.Api.Cue.{Cue}
use dockyards_flux.Api.Rendering.{
  Rendering, Any, object, array, bytes, text, int64, float64, json_number, other, flag, null,
  Entries, no_entries, entry, Values, no_values, value, Unstructured,
}
use dockyards_flux.Controllers.Workload.Json.{ensure_valid_json, ensure_valid_value}

-- Whether all values in a map, or below it in maps and lists, are of the types of JSON or int64.
unfoldable mutual
  pub is_json : Entries → Bool
  is_json no_entries = true
  is_json (entry k v rest) = value_is_json v && is_json rest

  pub value_is_json : Any → Bool
  value_is_json (object entries) = is_json entries
  value_is_json (array vs) = list_is_json vs
  value_is_json (bytes t) = false
  value_is_json (text t) = true
  value_is_json (int64 n) = true
  value_is_json (float64 n) = true
  value_is_json (json_number t) = true
  value_is_json (other t) = false
  value_is_json (flag b) = true
  value_is_json null = true

  pub list_is_json : Values → Bool
  list_is_json no_values = true
  list_is_json (value v rest) = value_is_json v && list_is_json rest

-- Whether all are, but for byte slices that are not below a list.
unfoldable mutual
  unfolding list_is_json

  pub is_settable : Entries → Bool
  is_settable no_entries = true
  is_settable (entry k v rest) = value_is_settable v && is_settable rest

  pub value_is_settable : Any → Bool
  value_is_settable (object entries) = is_settable entries
  value_is_settable (array vs) = list_is_json vs
  value_is_settable (bytes t) = true
  value_is_settable (text t) = true
  value_is_settable (int64 n) = true
  value_is_settable (float64 n) = true
  value_is_settable (json_number t) = true
  value_is_settable (other t) = false
  value_is_settable (flag b) = true
  value_is_settable null = true

mutual
  unfolding ensure_valid_json ensure_valid_value is_json value_is_json is_settable value_is_settable

  made_valid : (entries : Entries) → is_json (ensure_valid_json entries) ≡ is_settable entries
  made_valid no_entries = refl
  made_valid (entry k v rest) = ground (arith, value_made_valid v, made_valid rest)

  value_made_valid : (v : Any) → value_is_json (ensure_valid_value v) ≡ value_is_settable v
  value_made_valid (object entries) = made_valid entries
  value_made_valid (array vs) = refl
  value_made_valid (bytes t) = refl
  value_made_valid (text t) = refl
  value_made_valid (int64 n) = refl
  value_made_valid (float64 n) = refl
  value_made_valid (json_number t) = refl
  value_made_valid (other t) = refl
  value_made_valid (flag b) = refl
  value_made_valid null = refl

-- A map that was made valid is one of JSON exactly where the map had nothing else but byte slices, and
-- those not below a list.
pub is_json-ensure_valid_json :
    (entries : Entries) → is_json (ensure_valid_json entries) ≡ is_settable entries
is_json-ensure_valid_json entries = made_valid entries

-- What SetNestedMap documents: it sets a deep copy of the map, which takes the types that JSON is decoded
-- to and int64, and panics at a value of any other type.
abbrev pub PanicsOffJson : {E : Type 0} {cue : Cue E} → Rendering cue → Type 0
PanicsOffJson rendering =
    (entries : Entries) (u : Unstructured)
    → (rendering.set_nested_spec entries u ≡ panicked) ↔ (is_json entries ≡ false)
