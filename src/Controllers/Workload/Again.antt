-- ===== src/Controllers/Workload/Again.antt =====
-- Rendering the same values again, for the loop over the fields in
-- controllers/dockyardsworkload_controller.go.
use mathlib.Core.Path.{fun_ext}
use dockyards_flux.Base.{
  Bool, true, false, Option, none, some, List, [], ◌∷◌, ◌≡◌, ◌⊎◌, inl, inr, refl, arith, sym, ◌∙◌,
  ap, Bool-cases, if◌then◌else◌, ◌||◌,
}
use dockyards_flux.Base.Outcome.{Result, done, ok, err, Result-cases}
use dockyards_flux.Base.View.{View}
use dockyards_flux.Api.Objects.{Cluster, Workload}
use dockyards_flux.Api.Errors.{ApiErrors}
use dockyards_flux.Api.Client.{GroupVersions}
use dockyards_flux.Api.Cue.{Cue}
use dockyards_flux.Api.Conditions.{Conditions}
use dockyards_flux.Api.Rendering.{
  Rendering, WorkloadWorld, Unstructured, Entries, ResourceKey, resource_key, same_resource,
  same_resource-IsKeyTest, SetsSpec,
}
use dockyards_flux.Api.World.{stored_or, IsLawfulCreateOrPatch}
use dockyards_flux.Controllers.Workload.{set_metadata, apply_fields, reconciled}
use dockyards_flux.Controllers.Workload.Desired.{
  asked_spec, replace_spec, desired, update, desired_view, apply_fields-desired_view,
}

module _ {E : Type 0} (gv : GroupVersions) (cue : Cue E) (rendering : Rendering cue) (w : Workload)
    (cluster : Cluster) (k : ResourceKey) where
  open cue use {Value}
  open rendering use {decode_object}

  -- What happens to the object of the key.
  abbrev visit_decoded : Value → Result E Unstructured → Option Unstructured → Option Unstructured
  visit_decoded v (err e) o = o
  visit_decoded v (ok u) o =
      if same_resource k (resource_key u)
      then some (desired gv cue rendering w cluster v (stored_or u o))
      else o

  abbrev visits : List Value → Option Unstructured → Option Unstructured
  visits [] o = o
  visits (v ∷ vs) o = visits vs (visit_decoded v (decode_object v) o)

  update-visit :
      (v : Value) (decoded : Result E Unstructured) (view : View ResourceKey Unstructured)
      → update gv cue rendering w cluster v decoded view k ≡ visit_decoded v decoded (view k)
  update-visit v (err e) view = refl
  update-visit v (ok u) view = elim (Bool-cases (same_resource k (resource_key u))) [
    | inr differs ↦ ground (arith, differs)
    | inl same ↦
        let here : view (resource_key u) ≡ view k =
          ap view (sym ((same_resource-IsKeyTest k (resource_key u)).0 same)) in
        ground (arith, same, here)
  ]

  desired_view-visits :
      (vs : List Value) (view : View ResourceKey Unstructured)
      → desired_view gv cue rendering w cluster vs view k ≡ visits vs (view k)
  unfolding desired_view
  desired_view-visits [] view = refl
  desired_view-visits (v ∷ vs) view =
      desired_view-visits vs (update gv cue rendering w cluster v (decode_object v) view)
      ∙ ap (λ o. visits vs o) (update-visit v (decode_object v) view)

  -- Whether a value asks for the key, and the last spec asked for it.
  abbrev asks : Result E Unstructured → Bool
  asks (err e) = false
  asks (ok u) = same_resource k (resource_key u)

  abbrev asked : List Value → Bool
  asked [] = false
  asked (v ∷ vs) = asks (decode_object v) || asked vs

  abbrev last_spec : List Value → Option Entries
  last_spec [] = none
  last_spec (v ∷ vs) =
      replace_spec (last_spec vs)
        (if asks (decode_object v) then asked_spec gv cue rendering w cluster v else none)

  abbrev effect : Bool → Option Entries → Unstructured → Unstructured
  effect true spec x = record (set_metadata gv w cluster x) { spec = replace_spec spec x.spec }
  effect false spec x = record x { spec = replace_spec spec x.spec }

  effect-effect :
      (b c : Bool) (first second : Option Entries) (x : Unstructured)
      → effect c second (effect b first x) ≡ effect (b || c) (replace_spec second first) x
  effect-effect true true first none x = refl
  effect-effect true true first (some e) x = refl
  effect-effect true false first none x = refl
  effect-effect true false first (some e) x = refl
  effect-effect false true first none x = refl
  effect-effect false true first (some e) x = refl
  effect-effect false false first none x = refl
  effect-effect false false first (some e) x = refl

  effect_idempotent :
      (b : Bool) (spec : Option Entries) (x : Unstructured)
      → effect b spec (effect b spec x) ≡ effect b spec x
  effect_idempotent true none x = refl
  effect_idempotent true (some e) x = refl
  effect_idempotent false none x = refl
  effect_idempotent false (some e) x = refl

  -- On an object that is there, a value has the effect that it asks for.
  visit-effect :
      (v : Value) (decoded : Result E Unstructured) (x : Unstructured)
      → visit_decoded v decoded (some x)
        ≡ some (
            effect
              (asks decoded)
              (if asks decoded then asked_spec gv cue rendering w cluster v else none)
              x)
  visit-effect v (err e) x = refl
  visit-effect v (ok u) x = elim (Bool-cases (same_resource k (resource_key u))) [
    | inl same ↦ ground (arith, same)
    | inr differs ↦ ground (arith, differs)
  ]

  visits-effect :
      (vs : List Value) (x : Unstructured)
      → visits vs (some x) ≡ some (effect (asked vs) (last_spec vs) x)
  visits-effect [] x = refl
  visits-effect (v ∷ vs) x =
      let b = asks (decode_object v) in
      let first = if b then asked_spec gv cue rendering w cluster v else none in
      ap (λ o. visits vs o) (visit-effect v (decode_object v) x)
      ∙ visits-effect vs (effect b first x)
      ∙ ap some (effect-effect b (asked vs) first (last_spec vs) x)

  -- What one value asks of the key.
  abbrev asked_of : Value → Option Entries
  asked_of v = if asks (decode_object v) then asked_spec gv cue rendering w cluster v else none

  visit-none :
      (v : Value)
      → ((asks (decode_object v) ≡ false) × (visit_decoded v (decode_object v) none ≡ none))
        ⊎ ((u : Unstructured) × (visit_decoded v (decode_object v) none
              ≡ some (effect (asks (decode_object v)) (asked_of v) u)))
  visit-none v = elim (Result-cases (decode_object v)) [
    | inr (e, wrong) ↦ inl (ground (arith, wrong), ground (arith, wrong))
    | inl (u, decoded) ↦ elim (Bool-cases (same_resource k (resource_key u))) [
      | inr differs ↦ inl (ground (arith, decoded, differs), ground (arith, decoded, differs))
      | inl same ↦ inr (u, ground (arith, decoded, same))
    ]
  ]

  -- An object that was not there stays away, or is the effect on some new one.
  visits-none :
      (vs : List Value)
      → (visits vs none ≡ none)
        ⊎ ((x : Unstructured) × (visits vs none ≡ some (effect (asked vs) (last_spec vs) x)))
  visits-none [] = inl refl
  visits-none (v ∷ vs) = elim (visit-none v) [
    | inr (u, made) ↦
        let b = asks (decode_object v) in
        inr (
          u,
          ap (λ o. visits vs o) made
              ∙ visits-effect vs (effect b (asked_of v) u)
              ∙ ap some (effect-effect b (asked vs) (asked_of v) (last_spec vs) u),
        )
    | inl (unasked, absent) ↦ elim (visits-none vs) [
      | inl still ↦ inl (ap (λ o. visits vs o) absent ∙ still)
      | inr (x, made) ↦ inr (
        x,
        ap (λ o. visits vs o) absent
            ∙ made
            ∙ ap some (effect-effect false (asked vs) none (last_spec vs) x)
            ∙ ground (arith, unasked),
      )
    ]
  ]

  visits_idempotent :
      (vs : List Value) (o : Option Unstructured) → visits vs (visits vs o) ≡ visits vs o
  visits_idempotent vs (some x) =
      ap (λ o. visits vs o) (visits-effect vs x)
      ∙ visits-effect vs (effect (asked vs) (last_spec vs) x)
      ∙ ap some (effect_idempotent (asked vs) (last_spec vs) x)
      ∙ sym (visits-effect vs x)
  visits_idempotent vs none = elim (visits-none vs) [
    | inl absent ↦ ap (λ o. visits vs o) absent
    | inr (x, made) ↦
        ap (λ o. visits vs o) made
        ∙ visits-effect vs (effect (asked vs) (last_spec vs) x)
        ∙ ap some (effect_idempotent (asked vs) (last_spec vs) x)
        ∙ sym made
  ]

module _ {S E : Type 0} (errors : ApiErrors E) (gv : GroupVersions) (conditions : Conditions E)
    (cue : Cue E) (rendering : Rendering cue) (world : WorkloadWorld S E) (w : Workload)
    (cluster : Cluster) (stored : S → View ResourceKey Unstructured)
    (lawful : IsLawfulCreateOrPatch resource_key stored world.create_or_patch)
    (sets : SetsSpec rendering) where
  open cue use {Value}

  -- Applying the same values a second time leaves every object as the first time left it, also where
  -- several values are for one object.
  pub apply_fields_idempotent :
      (vs : List Value) (s s' s'' : S)
      → apply_fields errors gv conditions cue rendering world w cluster vs s ≡ (s', done reconciled)
      → apply_fields errors gv conditions cue rendering world w cluster vs s'
        ≡ (s'', done reconciled)
      → stored s'' ≡ stored s'
  apply_fields_idempotent vs s s' s'' once twice =
      let first =
        apply_fields-desired_view errors gv conditions cue rendering world w cluster stored lawful
          sets vs s s' once in
      let second =
        apply_fields-desired_view errors gv conditions cue rendering world w cluster stored lawful
          sets vs s' s'' twice in
      fun_ext λ k.
        let here = desired_view-visits gv cue rendering w cluster k vs (stored s) in
        let again = desired_view-visits gv cue rendering w cluster k vs (stored s') in
        ap (λ view. view k) second
        ∙ again
        ∙ ap (λ o. visits gv cue rendering w cluster k vs o) (ap (λ view. view k) first ∙ here)
        ∙ visits_idempotent gv cue rendering w cluster k vs (stored s k)
        ∙ sym (ap (λ view. view k) first ∙ here)
