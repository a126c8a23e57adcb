-- ===== src/Controllers/Workload/Returns.antt =====
-- When `Reconcile` of controllers/dockyardsworkload_controller.go returns.
use dockyards_flux.Controllers.Inventory.Errors.{return_error-ne-panicked}
use dockyards_flux.Base.{
  none, some, List, [], ◌∷◌, ◌≡◌, inl, inr, refl, arith, ap, sym, ◌∙◌, Option-cases,
}
use dockyards_flux.Base.Outcome.{Result-cases, Outcome, Outcome-cases, done, failed, panicked}
use dockyards_flux.Base.View.{View}
use dockyards_flux.Api.Objects.{ObjectKey, Cluster, Workload}
use dockyards_flux.Api.Errors.{ApiErrors, IsLawfulErrors}
use dockyards_flux.Api.Client.{GroupVersions}
use dockyards_flux.Api.Cue.{Cue}
use dockyards_flux.Api.Conditions.{Conditions}
use dockyards_flux.Api.Rendering.{Rendering, WorkloadWorld, Unstructured, ResourceKey, resource_key}
use dockyards_flux.Api.World.{IsLawfulCreateOrPatch}
use dockyards_flux.Controllers.Workload.{reconcile_workload_template}
use dockyards_flux.Controllers.Workload.Lists.{PanicsOffJson}
use dockyards_flux.Controllers.Workload.Reconciling.{
  mark, reconcile_progress, reconcile_steps, finish_workload, summarise, reconcile_workload,
}
use dockyards_flux.Controllers.Workload.Reaching.{IsReached, reconcile_workload_template-cases}
use mathlib.Core.List.{Memᴰ}
use dockyards_flux.Controllers.Workload.Panics.{IsUnsettable, apply_fields-panicked}

module _ {S E : Type 0} (errors : ApiErrors E) (gv : GroupVersions) (conditions : Conditions E)
    (cue : Cue E) (rendering : Rendering cue) (world : WorkloadWorld S E)
    (stored : S → View ResourceKey Unstructured)
    (lawful : IsLawfulCreateOrPatch resource_key stored world.create_or_patch)
    (panics : PanicsOffJson rendering) where
  open cue use {Value}

  finish_workload-panicked :
      (before after : Workload) (s : S) (outcome : Outcome E (Unit {0}))
      → (finish_workload errors gv conditions cue rendering world before (s, after, outcome)).1
        ≡ panicked
      → outcome ≡ panicked
  unfolding finish_workload
  finish_workload-panicked before after s panicked h = refl
  finish_workload-panicked before after s (done x) h =
      let (t, e) = world.patch_workload before (summarise conditions after) s in
      elim (Option-cases e) [
        | inl patched ↦ ground (arith, patched)
        | inr (problem, refused) ↦ absurd (
            return_error-ne-panicked (world.new_aggregate (none ∷ some problem ∷ [])) t
              (ground (arith, refused)))
      ]
  finish_workload-panicked before after s (failed x) h =
      let (t, e) = world.patch_workload before (summarise conditions after) s in
      elim (Option-cases e) [
        | inl patched ↦ ground (arith, patched)
        | inr (problem, refused) ↦ absurd (
            return_error-ne-panicked (world.new_aggregate (some x ∷ some problem ∷ [])) t
              (ground (arith, refused)))
      ]

  steps-panicked :
      (w : Workload) (s : S)
      → (reconcile_steps errors gv conditions cue rendering world w s).2 ≡ panicked
      → (reconcile_workload_template errors gv conditions cue rendering world w s).1 ≡ panicked
  unfolding reconcile_steps
  steps-panicked w s h =
      let (t, outcome) = reconcile_workload_template errors gv conditions cue rendering world w s in
      elim (Outcome-cases outcome) [
        | inr (inr panic) ↦ panic
        | inr (inl (e, wrong)) ↦ ground (arith, wrong)
        | inl (verdict, fine) ↦
            let progress =
              reconcile_progress errors gv conditions cue rendering world
                (mark conditions verdict w) t in
            elim (Result-cases progress) [
              | inr (e, wrong) ↦ ground (arith, fine, wrong)
              | inl (p, listed) ↦ ground (arith, fine, listed)
            ]
      ]

  -- A reconciliation of a workload returns, with or without an error, unless a field of the template
  -- that it found, loaded and filled for the workload has a spec with a value that is neither of JSON
  -- nor a byte slice outside of the lists: there is no other way to a panic.
  pub reconcile_workload-IsUnsettable :
      IsLawfulErrors errors
      → (key : ObjectKey) (s : S)
      → (reconcile_workload errors gv conditions cue rendering world key s).1 ≡ panicked
      → let w = (world.get_workload key s).0 in
        (cluster : Cluster) × (values : List Value) × (v : Value) × IsReached errors gv conditions
          cue rendering world w s cluster values
        × Memᴰ v values
        × IsUnsettable gv cue rendering w cluster panics v
  unfolding reconcile_workload
  reconcile_workload-IsUnsettable lawful_errors key s h =
      let (w, e) = world.get_workload key s in
      let (mid, after, outcome) = reconcile_steps errors gv conditions cue rendering world w s in
      let idle = return_error-ne-panicked (errors.ignore_not_found e) s in
      elim (Option-cases e) [
        | inr (problem, missing) ↦ absurd (idle (ground (arith, missing)))
        | inl got ↦ elim (Option-cases (world.new_workload_helper w s)) [
          | inr (problem, refused) ↦ ground (arith, got, refused)
          | inl made ↦
              let panic =
                steps-panicked w s
                  (finish_workload-panicked w after mid outcome (ground (arith, got, made))) in
              elim (reconcile_workload_template-cases errors gv conditions cue rendering world
                lawful_errors w s) [
                  | inl (kept, returned) ↦ absurd (returned panic)
                  | inr (cluster, values, r, same) ↦
                      let (v, there, bad) =
                        apply_fields-panicked errors gv conditions cue rendering world stored lawful
                          panics w cluster values s (sym (ap (λ t. t.1) same) ∙ panic) in
                      (cluster, values, v, r, there, bad)
                ]
        ]
      ]
