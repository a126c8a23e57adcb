-- ===== src/Controllers/Workload/Refined.antt =====
-- `Reconcile` of controllers/dockyardsworkload_controller.go against the specification of the objects
-- that a template asks for.
use dockyards_flux.Base.{none, ◌≡◌, ap, ◌∙◌}
use dockyards_flux.Base.View.{View}
use dockyards_flux.Api.Objects.{ObjectKey}
use dockyards_flux.Api.Errors.{ApiErrors, IsLawfulErrors}
use dockyards_flux.Api.Client.{GroupVersions}
use dockyards_flux.Api.Cue.{Cue}
use dockyards_flux.Api.Conditions.{Conditions}
use dockyards_flux.Api.Rendering.{
  Rendering, WorkloadWorld, Unstructured, ResourceKey, resource_key, SetsSpec,
}
use dockyards_flux.Api.World.{IsLawfulCreateOrPatch}
use dockyards_flux.Controllers.Workload.Reconciling.{reconcile_steps, reconcile_workload}
use dockyards_flux.Controllers.Workload.Finishing.{reconcile_workload-state}
use dockyards_flux.Controllers.Workload.Rendered.{apply_fields_complete}
use dockyards_flux.Controllers.Workload.Ready.{
  IsReconciled, reconcile_workload_template-reconciled_iff,
}
use dockyards_flux.Controllers.Workload.Desired.{desired_view, apply_fields-desired_view}
use dockyards_flux.Controllers.Workload.Kept.{PatchesOnly, IsSame, steps-state}

module _ {S E : Type 0} (errors : ApiErrors E) (gv : GroupVersions) (conditions : Conditions E)
    (cue : Cue E) (rendering : Rendering cue) (world : WorkloadWorld S E)
    (stored : S → View ResourceKey Unstructured)
    (lawful : IsLawfulCreateOrPatch resource_key stored world.create_or_patch)
    (sets : SetsSpec rendering) (patches : PatchesOnly gv world stored)
    (lawful_errors : IsLawfulErrors errors) where
  open cue use {Value}

  -- Where the workload is found, its patch helper is made and its template can be rendered, that is, all
  -- that marks it as reconciled is so, the objects other than the workload are those of the state that
  -- the rendering leaves.
  pub reconcile_workload-rendered :
      (key : ObjectKey) (s mid : S)
      → (world.get_workload key s).1 ≡ none
      → world.new_workload_helper (world.get_workload key s).0 s ≡ none
      → IsReconciled errors gv conditions cue rendering world (world.get_workload key s).0 s mid
      → IsSame errors gv conditions cue rendering world stored lawful sets patches lawful_errors
          (world.get_workload key s).0
          (reconcile_workload errors gv conditions cue rendering world key s).0
          (stored mid)
  reconcile_workload-rendered key s mid got made r k ne =
      let w = (world.get_workload key s).0 in
      let iff =
        reconcile_workload_template-reconciled_iff errors gv conditions cue rendering world
          lawful_errors w s mid in
      ap (λ t. stored t k)
        (reconcile_workload-state errors gv conditions cue rendering world key s got made)
      ∙ patches w _ (reconcile_steps errors gv conditions cue rendering world w s).0 k ne
      ∙ ap (λ t. stored t k)
          (steps-state errors gv conditions cue rendering world stored lawful sets patches
              lawful_errors w s
            ∙ ap (λ t. t.0) (iff.1 r))

  -- Where the workload is found, its patch helper is made and all that marks its template as reconciled
  -- is so, the objects other than the workload are, whatever the reconciliation returns, exactly those
  -- that the specification gives for the template's fields, in order, from those that were there.
  pub reconcile_workload-desired_view :
      (key : ObjectKey) (s mid : S)
      → (world.get_workload key s).1 ≡ none
      → world.new_workload_helper (world.get_workload key s).0 s ≡ none
      → (r : IsReconciled errors gv conditions cue rendering world
          (world.get_workload key s).0
          s
          mid)
      → IsSame errors gv conditions cue rendering world stored lawful sets patches lawful_errors
          (world.get_workload key s).0
          (reconcile_workload errors gv conditions cue rendering world key s).0
          (desired_view gv cue rendering
            (world.get_workload key s).0
            r.cluster
            r.rendered.values
            (stored s))
  reconcile_workload-desired_view key s mid got made r k ne =
      let w = (world.get_workload key s).0 in
      reconcile_workload-rendered key s mid got made r k ne
      ∙ ap (λ view. view k)
          (apply_fields-desired_view errors gv conditions cue rendering world w r.cluster stored
            lawful sets r.rendered.values s mid
            (apply_fields_complete errors gv conditions cue rendering world w r.cluster
              r.rendered.values s mid r.rendered.applied_all))
