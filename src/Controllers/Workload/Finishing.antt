-- ===== src/Controllers/Workload/Finishing.antt =====
-- The end of `Reconcile` in controllers/dockyardsworkload_controller.go.
use dockyards_flux.Controllers.Inventory.Errors.{return_error-state, return_error-done}
use dockyards_flux.Base.{
  none, some, [], ◌∷◌, ◌≡◌, ◌≢◌, ◌⊎◌, inl, inr, refl, arith, ap, sym, ◌∙◌, Option-cases,
}
use dockyards_flux.Base.Outcome.{ok, Result-cases, Outcome, done, failed, panicked, Outcome-cases}
use dockyards_flux.Api.Objects.{ObjectKey, Workload}
use dockyards_flux.Api.Errors.{ApiErrors}
use dockyards_flux.Api.Client.{GroupVersions}
use dockyards_flux.Api.Cue.{Cue}
use dockyards_flux.Api.Conditions.{Conditions}
use dockyards_flux.Api.Rendering.{Rendering, WorkloadWorld}
use dockyards_flux.Controllers.Kustomization.Patching.{KeepsErrors}
use dockyards_flux.Controllers.Workload.{Verdict, reconcile_workload_template}
use dockyards_flux.Controllers.Workload.Settled.{IsProgress, reconcile_progress-IsProgress_iff}
use dockyards_flux.Controllers.Workload.Marks.{with_summary, summarise_lem, reconcile_progress-mark}
use dockyards_flux.Controllers.Workload.Reconciling.{
  Progress, mark, mark_progress, summarise, reconcile_progress, reconcile_steps, finish_workload,
  reconcile_workload,
}

module _ {S E : Type 0} (errors : ApiErrors E) (gv : GroupVersions) (conditions : Conditions E)
    (cue : Cue E) (rendering : Rendering cue) (world : WorkloadWorld S E) where
  -- The workload was rendered with some verdict, its Flux objects were listed, and the workload was
  -- patched: to one with the condition WorkloadTemplateReconciled of the verdict, the condition
  -- Reconciling of what was listed, and the summary of both as the condition Ready.
  abbrev pub IsPatched : Workload → S → S → Type 0
  IsPatched w s s' =
      (mid : S) × (verdict : Verdict E) × (progress : Progress) × (reconcile_workload_template
          errors gv conditions cue rendering world w s
        ≡ (mid, done verdict))
      × IsProgress errors gv conditions cue rendering world w mid progress
      × (world.patch_workload w (with_summary conditions verdict progress w) mid ≡ (s', none))

  finish_workload-done :
      KeepsErrors world.new_aggregate
      → (before after : Workload) (s s' : S) (outcome : Outcome E (Unit {0}))
      → finish_workload errors gv conditions cue rendering world before (s, after, outcome)
        ≡ (s', done tt)
      → (outcome ≡ done tt)
        × (world.patch_workload before (summarise conditions after) s ≡ (s', none))
  unfolding finish_workload
  finish_workload-done keeps before after s s' panicked h = ground arith
  finish_workload-done keeps before after s s' (done x) h =
      let (t, e) = world.patch_workload before (summarise conditions after) s in
      elim (Option-cases e) [
        | inl patched ↦ (refl, ground (arith, patched))
        | inr (problem, refused) ↦ absurd (
            keeps none problem
              (return_error-done (world.new_aggregate (none ∷ some problem ∷ [])) t s'
                (ground (arith, refused))).0)
      ]
  finish_workload-done keeps before after s s' (failed x) h =
      let (t, e) = world.patch_workload before (summarise conditions after) s in
      elim (Option-cases e) [
        | inl patched ↦ ground (arith, patched)
        | inr (problem, refused) ↦ absurd (
            keeps (some x) problem
              (return_error-done (world.new_aggregate (some x ∷ some problem ∷ [])) t s'
                (ground (arith, refused))).0)
      ]

  abbrev steps : Workload → S → S × Workload × Outcome E (Unit {0})
  steps = reconcile_steps errors gv conditions cue rendering world

  -- The steps before the deferred function, where they return no error.
  steps-done :
      (w : Workload) (s : S)
      → (steps w s).2 ≡ done tt
      → (mid : S) × (verdict : Verdict E) × (progress : Progress) × (reconcile_workload_template
            errors gv conditions cue rendering world w s
          ≡ (mid, done verdict))
        × (reconcile_progress errors gv conditions cue rendering world
              (mark conditions verdict w)
              mid
            ≡ ok progress)
        × (steps w s
            ≡ (mid, mark_progress conditions progress (mark conditions verdict w), done tt))
  unfolding reconcile_steps
  steps-done w s h =
      let (t, outcome) = reconcile_workload_template errors gv conditions cue rendering world w s in
      elim (Outcome-cases outcome) [
        | inr (inr wrong) ↦ ground (arith, wrong)
        | inr (inl (e, wrong)) ↦ ground (arith, wrong)
        | inl (verdict, fine) ↦
            elim (Result-cases (
              reconcile_progress errors gv conditions cue rendering world
                (mark conditions verdict w) t)) [
                  | inr (e, wrong) ↦ ground (arith, fine, wrong)
                  | inl (progress, listed) ↦ (
                    t,
                    verdict,
                    progress,
                    ground (arith, fine),
                    listed,
                    ground (arith, fine, listed),
                  )
                ]
      ]

  finished_steps-done :
      KeepsErrors world.new_aggregate
      → (w : Workload) (s s' : S)
      → finish_workload errors gv conditions cue rendering world w (steps w s) ≡ (s', done tt)
      → IsPatched w s s'
  finished_steps-done keeps w s s' h =
      let (mid, after, outcome) = steps w s in
      let (fine, patched) = finish_workload-done keeps w after mid s' outcome h in
      let (t, verdict, progress, rendered, listed, same) = steps-done w s fine in
      let of_marked =
        reconcile_progress-mark errors gv conditions cue rendering world verdict w t in
      (
        t,
        verdict,
        progress,
        rendered,
        (reconcile_progress-IsProgress_iff errors gv conditions cue rendering world w t progress).0
            (sym of_marked ∙ listed),
        ap (λ x. world.patch_workload w x t) (sym (summarise_lem conditions verdict progress w))
            ∙ ground (arith, same, patched),
      )

  -- A reconciliation that returns no error either did not find the workload and changed nothing, or
  -- rendered its template with some verdict, listed its Flux objects, and then patched the workload with
  -- nothing but its conditions changed: WorkloadTemplateReconciled is as the verdict says, Reconciling is
  -- true where a kustomization or a Helm release of the workload is reconciling and deleted where none
  -- is, and Ready is the summary of the two.
  pub reconcile_workload-done :
      KeepsErrors world.new_aggregate
      → (key : ObjectKey) (s s' : S)
      → reconcile_workload errors gv conditions cue rendering world key s ≡ (s', done tt)
      → let (w, e) = world.get_workload key s in
        ((e ≢ none) × (errors.ignore_not_found e ≡ none) × (s' ≡ s))
        ⊎ ((e ≡ none) × (world.new_workload_helper w s ≡ none) × IsPatched w s s')
  unfolding reconcile_workload
  reconcile_workload-done keeps key s s' h =
      let (w, e) = world.get_workload key s in
      elim (Option-cases e) [
        | inr (problem, missing) ↦
            let (found, same) =
              return_error-done (errors.ignore_not_found e) s s' (ground (arith, missing)) in
            inl (ground (arith, missing), found, sym same)
        | inl got ↦ elim (Option-cases (world.new_workload_helper w s)) [
          | inl made ↦ inr (got, made, finished_steps-done keeps w s s' (ground (arith, got, made)))
          | inr (problem, refused) ↦ ground (arith, got, refused)
        ]
      ]

  finish_workload-state :
      (before after : Workload) (s : S) (outcome : Outcome E (Unit {0}))
      → (finish_workload errors gv conditions cue rendering world before (s, after, outcome)).0
        ≡ (world.patch_workload before (summarise conditions after) s).0
  unfolding finish_workload
  finish_workload-state before after s panicked = refl
  finish_workload-state before after s (done x) =
      let (t, e) = world.patch_workload before (summarise conditions after) s in
      elim (Option-cases e) [
        | inl patched ↦ ground (arith, patched)
        | inr (problem, refused) ↦
            ground (
              arith,
              refused,
              return_error-state (world.new_aggregate (none ∷ some problem ∷ [])) t,
            )
      ]
  finish_workload-state before after s (failed x) =
      let (t, e) = world.patch_workload before (summarise conditions after) s in
      elim (Option-cases e) [
        | inl patched ↦ ground (arith, patched)
        | inr (problem, refused) ↦ ground (
          arith,
          refused,
          return_error-state (world.new_aggregate (some x ∷ some problem ∷ [])) t,
        )
      ]

  -- Once the helper was made, the workload is patched on every path, errors and panics included, as the
  -- last change of the state: with whatever the steps left of it, and Ready set to the summary of
  -- WorkloadTemplateReconciled and Reconciling.
  pub reconcile_workload-state :
      (key : ObjectKey) (s : S)
      → (world.get_workload key s).1 ≡ none
      → world.new_workload_helper (world.get_workload key s).0 s ≡ none
      → let w = (world.get_workload key s).0 in
        (reconcile_workload errors gv conditions cue rendering world key s).0 ≡ (
          let (mid, after, _) = reconcile_steps errors gv conditions cue rendering world w s in
          (world.patch_workload w
            (record after {
              conditions =
                  conditions.set_summary after.conditions "Ready"
                    ("WorkloadTemplateReconciled" ∷ "Reconciling" ∷ [])
                    ("Reconciling" ∷ []);
            })
            mid).0)
  unfolding reconcile_workload summarise
  reconcile_workload-state key s got made =
      let w = (world.get_workload key s).0 in
      let (mid, after, outcome) = steps w s in
      let finished : reconcile_workload errors gv conditions cue rendering world key s
          ≡ finish_workload errors gv conditions cue rendering world w (steps w s) =
        ground (arith, got, made) in
      ap (λ x. x.0) finished ∙ finish_workload-state w after mid outcome
