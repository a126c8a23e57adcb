-- ===== src/Controllers/Workload/Admitted.antt =====
-- What webhooks/workload_webhook.go says to the patch that controllers/dockyardsworkload_controller.go
-- ends with.
use dockyards_flux.Base.{List, ◌≡◌, inl, inr, refl, arith, ap, ◌∙◌, Option-cases}
use dockyards_flux.Base.Outcome.{Result-cases, Outcome-cases}
use dockyards_flux.Api.Objects.{Workload, Condition, workload}
use dockyards_flux.Api.Errors.{ApiErrors}
use dockyards_flux.Api.Client.{GroupVersions, Reader}
use dockyards_flux.Api.Cue.{Cue}
use dockyards_flux.Api.Conditions.{Conditions}
use dockyards_flux.Api.Rendering.{Rendering, WorkloadWorld}
use dockyards_flux.Controllers.Workload.{
  Verdict, ignored, not_reconciled, reconciled, reconcile_workload_template,
}
use dockyards_flux.Controllers.Workload.Reconciling.{
  Progress, kustomization_reconciling, helm_release_reconciling, settled, mark, mark_progress,
  reconcile_progress, reconcile_steps, summarise,
}
use dockyards_flux.Webhooks.Workload.Reference.{metadata_errors, validate_cluster_reference}
use dockyards_flux.Webhooks.Workload.Validate.{
  validate, validate_create, validate_update, validate_workload_update, validate_template,
  validate_source, validate_instances, validate_input, valid_cluster_reference_update,
  valid_organization_reference_update, valid_template_reference_update,
}

-- The workload with other conditions.
abbrev with_conditions : Workload → List Condition → Workload
with_conditions w cs = record w { conditions = cs }

module _ {E : Type 0} (conditions : Conditions E) where
  mark-with_conditions :
      (verdict : Verdict E) (w : Workload)
      → (cs : List Condition) × (mark conditions verdict w ≡ with_conditions w cs)
  unfolding mark
  mark-with_conditions ignored w = (_, refl)
  mark-with_conditions (not_reconciled reason format arguments) w = (_, refl)
  mark-with_conditions reconciled w = (_, refl)

  mark_progress-with_conditions :
      (progress : Progress) (w : Workload)
      → (cs : List Condition) × (mark_progress conditions progress w ≡ with_conditions w cs)
  unfolding mark_progress
  mark_progress-with_conditions kustomization_reconciling w = (_, refl)
  mark_progress-with_conditions helm_release_reconciling w = (_, refl)
  mark_progress-with_conditions settled w = (_, refl)

module _ {E : Type 0} (errors : ApiErrors E) (gv : GroupVersions) (reader : Reader E)
    (cue : Cue E) where
  validate-with_conditions :
      (w : Workload) (cs : List Condition)
      → validate errors gv reader cue (with_conditions w cs) ≡ validate errors gv reader cue w
  unfolding validate validate_template validate_source validate_instances validate_input
      metadata_errors validate_cluster_reference
  validate-with_conditions w cs = refl

  validate_update-with_conditions :
      (w : Workload) (cs : List Condition)
      → validate_update errors gv reader cue (workload w) (workload (with_conditions w cs))
        ≡ validate_create errors gv reader cue (workload w)
  unfolding validate_update validate_workload_update validate_create valid_cluster_reference_update
      valid_organization_reference_update valid_template_reference_update
  validate_update-with_conditions w cs =
      let same = validate-with_conditions w cs in
      elim (Option-cases w.workload_template_ref) [
        | inl bare ↦ ground (arith, bare, same)
        | inr (ref, referenced) ↦ ground (arith, referenced, same)
      ]

module _ {S E : Type 0} (errors : ApiErrors E) (gv : GroupVersions) (conditions : Conditions E)
    (cue : Cue E) (rendering : Rendering cue) (world : WorkloadWorld S E) (reader : Reader E) where
  steps-with_conditions :
      (w : Workload) (s : S)
      → (cs : List Condition) × ((reconcile_steps errors gv conditions cue rendering world w s).1
          ≡ with_conditions w cs)
  unfolding reconcile_steps
  steps-with_conditions w s =
      let (t, outcome) = reconcile_workload_template errors gv conditions cue rendering world w s in
      elim (Outcome-cases outcome) [
        | inr (inr panic) ↦ (w.conditions, ground (arith, panic))
        | inr (inl (e, wrong)) ↦ (w.conditions, ground (arith, wrong))
        | inl (verdict, fine) ↦
            let marked = mark conditions verdict w in
            let (cs, same) = mark-with_conditions conditions verdict w in
            let progress = reconcile_progress errors gv conditions cue rendering world marked t in
            elim (Result-cases progress) [
              | inr (e, wrong) ↦ (cs, ground (arith, fine, wrong) ∙ same)
              | inl (p, listed) ↦
                  let (cs', same') = mark_progress-with_conditions conditions p marked in
                  (cs', ground (arith, fine, listed) ∙ same' ∙ ap (λ x. with_conditions x cs') same)
            ]
      ]

  -- Whatever comes of a reconciliation, the patch of the workload that it ends with changes nothing that
  -- the webhook holds to be immutable: as an update it gets the answer that the workload, as it is, gets
  -- as a creation, so that what the webhook has admitted it admits again.
  pub validate_update-summarise :
      (w : Workload) (s : S)
      → let after = (reconcile_steps errors gv conditions cue rendering world w s).1 in
        validate_update errors gv reader cue (workload w) (workload (summarise conditions after))
        ≡ validate_create errors gv reader cue (workload w)
  unfolding summarise
  validate_update-summarise w s =
      let (cs, same) = steps-with_conditions w s in
      ap
        (λ x. validate_update errors gv reader cue (workload w) (workload (summarise conditions x)))
        same
      ∙ validate_update-with_conditions errors gv reader cue w _
