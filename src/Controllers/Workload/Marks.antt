-- ===== src/Controllers/Workload/Marks.antt =====
-- The conditions that `Reconcile` of controllers/dockyardsworkload_controller.go leaves on a workload.
use dockyards_flux.Base.{List, [], ◌∷◌, ◌≡◌, ◌↔◌, inl, inr, refl, arith, ap, sym, ◌∙◌}
use dockyards_flux.Base.Outcome.{Result-cases, done}
use dockyards_flux.Api.Objects.{Condition, Workload}
use dockyards_flux.Api.Errors.{ApiErrors}
use dockyards_flux.Api.Client.{GroupVersions}
use dockyards_flux.Api.Cue.{Cue}
use dockyards_flux.Api.Conditions.{Conditions}
use dockyards_flux.Api.Rendering.{Rendering, WorkloadWorld}
use dockyards_flux.Controllers.Workload.{
  Verdict, ignored, not_reconciled, reconciled, reconcile_workload_template,
}
use dockyards_flux.Controllers.Workload.Reconciling.{
  Progress, kustomization_reconciling, helm_release_reconciling, settled, mark, mark_progress,
  summarise, reconcile_progress, reconcile_steps,
}
use dockyards_flux.Controllers.Workload.Settled.{IsProgress, reconcile_progress-IsProgress_iff}

module _ {E : Type 0} (conditions : Conditions E) where
  -- The condition WorkloadTemplateReconciled is left alone, false with the reason of the verdict, or
  -- true.
  abbrev pub verdict_conditions : Verdict E → List Condition → List Condition
  verdict_conditions ignored cs = cs
  verdict_conditions (not_reconciled reason format arguments) cs =
      conditions.mark_false cs "WorkloadTemplateReconciled" reason format arguments
  verdict_conditions reconciled cs =
      conditions.mark_true cs "WorkloadTemplateReconciled" "Ready" "" []

  -- The condition Reconciling is true, for kustomizations or for Helm releases, or deleted.
  abbrev pub progress_conditions : Progress → List Condition → List Condition
  progress_conditions kustomization_reconciling cs =
      conditions.mark_true cs "Reconciling" "KustomizationReconciling" "" []
  progress_conditions helm_release_reconciling cs =
      conditions.mark_true cs "Reconciling" "HelmReleaseReconciling" "" []
  progress_conditions settled cs = conditions.delete cs "Reconciling"

  -- The workload with both, and nothing else changed.
  abbrev pub with_marks : Verdict E → Progress → Workload → Workload
  with_marks verdict progress w = record w {
    conditions = progress_conditions progress (verdict_conditions verdict w.conditions);
  }

  -- And with the summary of the two as its condition Ready, of which Reconciling counts the other way
  -- round.
  abbrev pub with_summary : Verdict E → Progress → Workload → Workload
  with_summary verdict progress w = record w {
    conditions =
        conditions.set_summary
          (progress_conditions progress (verdict_conditions verdict w.conditions)) "Ready"
          ("WorkloadTemplateReconciled" ∷ "Reconciling" ∷ []) ("Reconciling" ∷ []);
  }

  mark_lem :
      (verdict : Verdict E) (w : Workload)
      → mark conditions verdict w
        ≡ record w { conditions = verdict_conditions verdict w.conditions }
  unfolding mark
  mark_lem ignored w = refl
  mark_lem (not_reconciled reason format arguments) w = refl
  mark_lem reconciled w = refl

  mark_progress_lem :
      (progress : Progress) (w : Workload)
      → mark_progress conditions progress w
        ≡ record w { conditions = progress_conditions progress w.conditions }
  unfolding mark_progress
  mark_progress_lem kustomization_reconciling w = refl
  mark_progress_lem helm_release_reconciling w = refl
  mark_progress_lem settled w = refl

  pub marks_lem :
      (verdict : Verdict E) (progress : Progress) (w : Workload)
      → mark_progress conditions progress (mark conditions verdict w)
        ≡ with_marks verdict progress w
  marks_lem verdict progress w =
      mark_progress_lem progress (mark conditions verdict w)
      ∙ ap (λ (x : Workload). record x { conditions = progress_conditions progress x.conditions })
          (mark_lem verdict w)

  pub summarise_lem :
      (verdict : Verdict E) (progress : Progress) (w : Workload)
      → summarise conditions (mark_progress conditions progress (mark conditions verdict w))
        ≡ with_summary verdict progress w
  unfolding summarise
  summarise_lem verdict progress w = ap (λ x. summarise conditions x) (marks_lem verdict progress w)

module _ {S E : Type 0} (errors : ApiErrors E) (gv : GroupVersions) (conditions : Conditions E)
    (cue : Cue E) (rendering : Rendering cue) (world : WorkloadWorld S E) where
  pub reconcile_progress-mark :
      (verdict : Verdict E) (w : Workload) (s : S)
      → reconcile_progress errors gv conditions cue rendering world (mark conditions verdict w) s
        ≡ reconcile_progress errors gv conditions cue rendering world w s
  unfolding reconcile_progress
  reconcile_progress-mark verdict w s =
      ap (λ x. reconcile_progress errors gv conditions cue rendering world x s)
        (mark_lem conditions verdict w)

  -- Once the template of a workload was rendered with some verdict, the steps before the deferred
  -- function end without an error exactly where the Flux objects of the workload could be listed, as far
  -- as that was needed; and then the workload differs by its conditions alone: WorkloadTemplateReconciled
  -- is set as the verdict says, and Reconciling is true with the reason for kustomizations where one of
  -- them is reconciling, true with that for Helm releases where one of them is and no kustomization is,
  -- and deleted where none is.
  pub reconcile_steps-done_iff :
      (w : Workload) (s mid : S) (verdict : Verdict E) (after : Workload)
      → reconcile_workload_template errors gv conditions cue rendering world w s
        ≡ (mid, done verdict)
      → (reconcile_steps errors gv conditions cue rendering world w s ≡ (mid, after, done tt)) ↔ (
          (progress : Progress) × IsProgress errors gv conditions cue rendering world w mid progress
          × (after ≡ with_marks conditions verdict progress w))
  unfolding reconcile_steps
  reconcile_steps-done_iff w s mid verdict after rendered =
      let marked = mark conditions verdict w in
      let same = reconcile_progress-mark verdict w mid in
      (
        λ h.
            elim (Result-cases
              (reconcile_progress errors gv conditions cue rendering world marked mid)) [
                | inr (e, wrong) ↦ ground (arith, rendered, wrong)
                | inl (progress, listed) ↦ (
                  progress,
                  (reconcile_progress-IsProgress_iff errors gv conditions cue rendering world w mid
                        progress).0
                      (sym same ∙ listed),
                  ground (arith, rendered, listed, marks_lem conditions verdict progress w),
                )
              ],
        λ (progress, is, here).
            let listed =
              same
              ∙ (reconcile_progress-IsProgress_iff errors gv conditions cue rendering world w mid
                    progress).1
                  is in
            ground (arith, rendered, listed, marks_lem conditions verdict progress w, here),
      )
