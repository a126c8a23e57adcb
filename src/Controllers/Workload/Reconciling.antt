-- ===== src/Controllers/Workload/Reconciling.antt =====
-- `Reconcile` of controllers/dockyardsworkload_controller.go: the marks on the workload, the
-- reconciling condition, and the deferred summary and patch.
use dockyards_flux.Base.{Bool, true, false, none, some, List, [], ◌∷◌, if◌then◌else◌, is_some}
use dockyards_flux.Base.Outcome.{Result, ok, err, Outcome, done, failed, panicked}
use dockyards_flux.Controllers.ConditionReasons.{
  kustomization_reconciling_reason, helm_release_reconciling_reason,
}
use dockyards_flux.Api.Constants.{
  ready_condition, ready_reason, workload_template_reconciled_condition, reconciling_condition,
}
use dockyards_flux.Api.Objects.{ObjectKey, Workload}
use dockyards_flux.Api.Errors.{ApiErrors}
use dockyards_flux.Api.Client.{GroupVersions}
use dockyards_flux.Api.Cue.{Cue}
use dockyards_flux.Api.Conditions.{Conditions}
use dockyards_flux.Api.Flux.{Kustomization, HelmRelease}
use dockyards_flux.Api.Rendering.{Rendering, WorkloadWorld}
use dockyards_flux.Controllers.Inventory.{Reconciled, return_error}
use dockyards_flux.Controllers.Workload.{
  Verdict, ignored, not_reconciled, reconciled, reconcile_workload_template,
}

-- What `reconcileReconcilingCondition` finds.
pub data Progress : Type 0 where
  kustomization_reconciling helm_release_reconciling settled : Progress

module _ {E : Type 0} (conditions : Conditions E) where
  unfoldable pub mark : Verdict E → Workload → Workload
  mark ignored w = w
  mark (not_reconciled reason format arguments) w = record w {
    conditions =
        conditions.mark_false w.conditions workload_template_reconciled_condition reason format
          arguments;
  }
  mark reconciled w = record w {
    conditions =
        conditions.mark_true w.conditions workload_template_reconciled_condition ready_reason "" [];
  }

  unfoldable pub mark_progress : Progress → Workload → Workload
  mark_progress kustomization_reconciling w = record w {
    conditions =
        conditions.mark_true w.conditions reconciling_condition kustomization_reconciling_reason ""
          [];
  }
  mark_progress helm_release_reconciling w = record w {
    conditions =
        conditions.mark_true w.conditions reconciling_condition helm_release_reconciling_reason ""
          [];
  }
  mark_progress settled w = record w {
    conditions = conditions.delete w.conditions reconciling_condition;
  }

  -- `conditions.SetSummary` of the deferred function
  unfoldable pub summarise : Workload → Workload
  summarise w = record w {
    conditions =
        conditions.set_summary w.conditions ready_condition
          (workload_template_reconciled_condition ∷ reconciling_condition ∷ [])
          (reconciling_condition ∷ []);
  }

  abbrev pub any_kustomization : List Kustomization → Bool
  any_kustomization [] = false
  any_kustomization (k ∷ ks) =
      let rest = any_kustomization ks in
      if conditions.is_reconciling k.conditions then true else rest

  abbrev pub any_helm_release : List HelmRelease → Bool
  any_helm_release [] = false
  any_helm_release (r ∷ rs) =
      let rest = any_helm_release rs in
      if conditions.is_reconciling r.conditions then true else rest

module _ {S E : Type 0} (errors : ApiErrors E) (gv : GroupVersions) (conditions : Conditions E)
    (cue : Cue E) (rendering : Rendering cue) (world : WorkloadWorld S E) where
  -- `reconcileReconcilingCondition`, up to the marks
  unfoldable pub reconcile_progress : Workload → S → Result E Progress
  reconcile_progress w s =
      let (kustomizations, e) = world.list_kustomizations w.name w.namespace s in
      elim e [
        | some problem ↦ err problem
        | none ↦
            if any_kustomization conditions kustomizations
            then ok kustomization_reconciling
            else (let (releases, e') = world.list_helm_releases w.name w.namespace s in
                elim e' [
                  | some problem ↦ err problem
                  | none ↦
                      if any_helm_release conditions releases
                      then ok helm_release_reconciling
                      else ok settled
                ])
      ]

  -- the workload in memory and the outcome before the deferred function runs
  unfoldable pub reconcile_steps : Workload → S → S × Workload × Outcome E (Unit {0})
  reconcile_steps w s =
      let (s', outcome) =
        reconcile_workload_template errors gv conditions cue rendering world w s in
      elim outcome [
        | panicked ↦ (s', w, panicked)
        | failed e ↦ (s', w, failed e)
        | done verdict ↦ elim (reconcile_progress (mark conditions verdict w) s') [
          | err e ↦ (s', mark conditions verdict w, failed e)
          | ok progress ↦
              (s', mark_progress conditions progress (mark conditions verdict w), done tt)
        ]
      ]

  -- the deferred function: summary and patch, on every path, a panic included
  unfoldable pub finish_workload : Workload → S × Workload × Outcome E (Unit {0}) → Reconciled S E
  finish_workload before (s, after, outcome) =
      let (s', e) = world.patch_workload before (summarise conditions after) s in
      elim outcome [
        | panicked ↦ (s', panicked)
        | done _ ↦ elim e [
          | none ↦ (s', done tt)
          | some problem ↦ return_error (world.new_aggregate (none ∷ some problem ∷ [])) s'
        ]
        | failed reterr ↦ elim e [
          | none ↦ (s', failed reterr)
          | some problem ↦ return_error (world.new_aggregate (some reterr ∷ some problem ∷ [])) s'
        ]
      ]

  unfoldable pub reconcile_workload : ObjectKey → S → Reconciled S E
  reconcile_workload key s =
      let (w, e) = world.get_workload key s in
      if is_some e
      then return_error (errors.ignore_not_found e) s
      else elim (world.new_workload_helper w s) [
        | some problem ↦ (s, failed problem)
        | none ↦ finish_workload w (reconcile_steps w s)
      ]
