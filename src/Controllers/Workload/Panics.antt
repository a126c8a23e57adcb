-- ===== src/Controllers/Workload/Panics.antt =====
-- Where a reconciliation of controllers/dockyardsworkload_controller.go panics, and what can never be
-- reconciled.
use dockyards_flux.Base.{
  false, true, List, [], ◌∷◌, ◌≡◌, ◌≢◌, ◌↔◌, ◌⊎◌, inl, inr, refl, arith, ap, sym, ◌∙◌, Option-cases,
  Bool-cases,
}
use dockyards_flux.Base.Outcome.{ok, Result-cases, Outcome, done, failed, panicked}
use dockyards_flux.Base.View.{View}
use dockyards_flux.Api.Objects.{Cluster, Workload}
use dockyards_flux.Api.Errors.{ApiErrors, IsLawfulErrors}
use dockyards_flux.Api.Client.{GroupVersions}
use dockyards_flux.Api.Cue.{Cue}
use dockyards_flux.Api.Conditions.{Conditions}
use dockyards_flux.Api.Rendering.{
  Rendering, WorkloadWorld, Unstructured, Entries, ResourceKey, resource_key,
}
use dockyards_flux.Api.World.{IsLawfulCreateOrPatch, OperationResult, stored_or}
use dockyards_flux.Controllers.Workload.{
  Verdict, reconciled, fill_object, set_metadata, apply_fields, after_operation,
  reconcile_workload_template,
}
use dockyards_flux.Controllers.Workload.Json.{ensure_valid_json}
use dockyards_flux.Controllers.Workload.Lists.{
  is_settable, is_json-ensure_valid_json, PanicsOffJson,
}
use dockyards_flux.Controllers.Workload.Rendered.{Applied, finished, applied, apply_fields_sound}
use dockyards_flux.Controllers.Workload.Reaching.{IsReached, IsReached-apply_fields}
use mathlib.Core.List.{Memᴰ}

module _ {E : Type 0} (gv : GroupVersions) (cue : Cue E) (rendering : Rendering cue) (w : Workload)
    (cluster : Cluster) (panics : PanicsOffJson rendering) where
  open cue use {Value, exists}
  open rendering use {decode_map, lookup_spec}

  -- The value has a spec with a value that is neither of JSON nor a byte slice outside of its lists.
  abbrev pub IsUnsettable : Value → Type 0
  IsUnsettable v =
      (entries : Entries) × (exists (lookup_spec v) ≡ true)
      × (decode_map (lookup_spec v) ≡ ok entries)
      × (is_settable entries ≡ false)

  -- The callback panics for such a value, whatever the object, and for no other.
  pub fill_object-IsUnsettable_iff :
      (v : Value) (u : Unstructured)
      → (fill_object gv cue rendering w cluster v u ≡ panicked) ↔ IsUnsettable v
  unfolding fill_object
  fill_object-IsUnsettable_iff v u =
      let law =
        λ (entries : Entries). panics (ensure_valid_json entries) (set_metadata gv w cluster u) in
      (
        λ h. elim (Bool-cases (exists (lookup_spec v))) [
          | inr bare ↦ ground (arith, bare)
          | inl specified ↦ elim (Result-cases (decode_map (lookup_spec v))) [
            | inr (e, wrong) ↦ ground (arith, specified, wrong)
            | inl (entries, decoded) ↦ (
              entries,
              specified,
              decoded,
              sym (is_json-ensure_valid_json entries)
                  ∙ (law entries).0 (ground (arith, specified, decoded)),
            )
          ]
        ],
        λ bad.
            let (entries, specified, decoded, below) = bad in
            let panic = (law entries).1 (is_json-ensure_valid_json entries ∙ below) in
            ground (arith, specified, decoded, panic),
      )

module _ {S E : Type 0} (errors : ApiErrors E) (gv : GroupVersions) (conditions : Conditions E)
    (cue : Cue E) (rendering : Rendering cue) (world : WorkloadWorld S E)
    (stored : S → View ResourceKey Unstructured)
    (lawful : IsLawfulCreateOrPatch resource_key stored world.create_or_patch)
    (panics : PanicsOffJson rendering) where
  open cue use {Value}
  open rendering use {validate_concrete, decode_object}

  -- Each value that was applied was filled without an error and without a panic.
  Applied-filled :
      (w : Workload) (cluster : Cluster) (v : Value) (vs : List Value) (s s' : S)
      → Applied errors gv conditions cue rendering world w cluster vs s s'
      → Memᴰ v vs
      → (before : Unstructured) × (after : Unstructured) × (fill_object gv cue rendering w cluster v
            before
          ≡ done after)
  Applied-filled w cluster v _ _ _ (finished s) there = elim there [ ]
  Applied-filled w cluster v _ _ _ (applied v' vs u op s mid s' concrete decoded result rest)
        (Memᴰ.head e) =
      let (after, filled, is_set) = lawful.result_stored u _ s mid op result in
      (
        stored_or u (stored s (resource_key u)),
        after,
        ap (λ x. fill_object gv cue rendering w cluster x (stored_or u (stored s (resource_key u))))
              e
            ∙ filled,
      )
  Applied-filled w cluster v _ _ _ (applied v' vs u op s mid s' concrete decoded result rest)
        (Memᴰ.tail there) =
      Applied-filled w cluster v vs mid s' rest there

  apply_fields-ne-reconciled :
      (w : Workload) (cluster : Cluster) (v : Value) (vs : List Value) (s s' : S)
      → Memᴰ v vs
      → IsUnsettable gv cue rendering w cluster panics v
      → apply_fields errors gv conditions cue rendering world w cluster vs s ≢ (s', done reconciled)
  apply_fields-ne-reconciled w cluster v vs s s' there bad h =
      let (before, after, filled) =
        Applied-filled w cluster v vs s s'
          (apply_fields_sound errors gv conditions cue rendering world w cluster vs s s' h) there in
      let panic = (fill_object-IsUnsettable_iff gv cue rendering w cluster panics v before).1 bad in
      ground (arith, panic, filled)

  after_operation-panicked :
      (next : S → S × Outcome E (Verdict E)) (result : S × Outcome E OperationResult)
      → (after_operation next result).1 ≡ panicked
      → (result.1 ≡ panicked) ⊎ ((next result.0).1 ≡ panicked)
  after_operation-panicked next (s, done op) h = inr h
  after_operation-panicked next (s, failed e) h = ground arith
  after_operation-panicked next (s, panicked) h = inl refl

  pub apply_fields-panicked :
      (w : Workload) (cluster : Cluster) (vs : List Value) (s : S)
      → (apply_fields errors gv conditions cue rendering world w cluster vs s).1 ≡ panicked
      → (v : Value) × Memᴰ v vs × IsUnsettable gv cue rendering w cluster panics v
  unfolding apply_fields
  apply_fields-panicked w cluster [] s h = ground arith
  apply_fields-panicked w cluster (v ∷ vs) s h = elim (Option-cases (validate_concrete v)) [
    | inr (e, vague) ↦ ground (arith, vague)
    | inl concrete ↦ elim (Result-cases (decode_object v)) [
      | inr (e, shapeless) ↦ ground (arith, concrete, shapeless)
      | inl (u, decoded) ↦
          let result = world.create_or_patch u (fill_object gv cue rendering w cluster v) s in
          elim (after_operation-panicked
            (λ t. apply_fields errors gv conditions cue rendering world w cluster vs t) result
            (ground (arith, concrete, decoded))) [
              | inl here ↦ (
                v,
                Memᴰ.head refl,
                (fill_object-IsUnsettable_iff gv cue rendering w cluster panics v _).0
                    (lawful.panics u _ s here),
              )
              | inr later ↦
                  let (x, there, bad) = apply_fields-panicked w cluster vs result.0 later in
                  (x, Memᴰ.tail there, bad)
            ]
    ]
  ]

  -- A template of which a field has a spec with a value that is neither of JSON nor a byte slice outside
  -- of the lists is never reconciled.
  pub reconcile_workload_template-ne-reconciled :
      IsLawfulErrors errors
      → (w : Workload) (s s' : S) (cluster : Cluster) (values : List Value) (v : Value)
      → IsReached errors gv conditions cue rendering world w s cluster values
      → Memᴰ v values
      → IsUnsettable gv cue rendering w cluster panics v
      → reconcile_workload_template errors gv conditions cue rendering world w s
        ≢ (s', done reconciled)
  reconcile_workload_template-ne-reconciled lawful_errors w s s' cluster values v r there bad h =
      apply_fields-ne-reconciled w cluster v values s s' there bad (
        sym (
          IsReached-apply_fields errors gv conditions cue rendering world lawful_errors w s cluster
            values r)
        ∙ h)
