-- ===== src/Controllers/Workload/Kept.antt =====
-- What `Reconcile` of controllers/dockyardsworkload_controller.go leaves of the objects in the cluster,
-- on every path.
use dockyards_flux.Controllers.Inventory.Errors.{return_error-state}
use dockyards_flux.Base.{List, ◌++◌, ◌≡◌, ◌≢◌, ◌⊎◌, inl, inr, arith, ap, ◌∙◌, Option-cases, subst}
use dockyards_flux.Base.Outcome.{Result-cases, Outcome-cases}
use dockyards_flux.Base.View.{View}
use dockyards_flux.Api.Constants.{workload_kind}
use dockyards_flux.Api.Objects.{ObjectKey, Cluster, Workload}
use dockyards_flux.Api.Errors.{ApiErrors, IsLawfulErrors}
use dockyards_flux.Api.Client.{GroupVersions}
use dockyards_flux.Api.Cue.{Cue}
use dockyards_flux.Api.Conditions.{Conditions}
use dockyards_flux.Api.Rendering.{
  Rendering, WorkloadWorld, Unstructured, ResourceKey, resource_key, SetsSpec,
}
use dockyards_flux.Api.World.{IsLawfulCreateOrPatch}
use dockyards_flux.Controllers.Workload.{reconcile_workload_template}
use dockyards_flux.Controllers.Workload.Reconciling.{
  mark, reconcile_progress, reconcile_steps, reconcile_workload,
}
use dockyards_flux.Controllers.Workload.Finishing.{reconcile_workload-state}
use dockyards_flux.Controllers.Workload.Reaching.{IsReached, reconcile_workload_template-cases}
use dockyards_flux.Controllers.Workload.Desired.{desired_view}
use dockyards_flux.Controllers.Workload.Prefix.{apply_fields-IsPrefix}

-- The workload itself, as one of the objects in the cluster.
abbrev pub workload_resource : GroupVersions → Workload → ResourceKey
workload_resource gv w = record {
  api_version = gv.dockyards_group_version;
  kind = workload_kind;
  namespace = w.namespace;
  name = w.name;
}

-- What Patch of a workload documents: no other object is changed.
abbrev pub PatchesOnly :
    {S E : Type 0}
    → GroupVersions
    → WorkloadWorld S E
    → (S → View ResourceKey Unstructured)
    → Type 0
PatchesOnly {S = S} gv world stored =
    (before after : Workload) (s : S) (k : ResourceKey)
    → k ≢ workload_resource gv before
    → stored (world.patch_workload before after s).0 k ≡ stored s k

module _ {S E : Type 0} (errors : ApiErrors E) (gv : GroupVersions) (conditions : Conditions E)
    (cue : Cue E) (rendering : Rendering cue) (world : WorkloadWorld S E)
    (stored : S → View ResourceKey Unstructured)
    (lawful : IsLawfulCreateOrPatch resource_key stored world.create_or_patch)
    (sets : SetsSpec rendering) (patches : PatchesOnly gv world stored)
    (lawful_errors : IsLawfulErrors errors) where
  open cue use {Value}

  pub steps-state :
      (w : Workload) (s : S)
      → (reconcile_steps errors gv conditions cue rendering world w s).0
        ≡ (reconcile_workload_template errors gv conditions cue rendering world w s).0
  unfolding reconcile_steps
  steps-state w s =
      let (t, outcome) = reconcile_workload_template errors gv conditions cue rendering world w s in
      elim (Outcome-cases outcome) [
        | inr (inr wrong) ↦ ground (arith, wrong)
        | inr (inl (e, wrong)) ↦ ground (arith, wrong)
        | inl (verdict, fine) ↦
            let marked = mark conditions verdict w in
            elim (Result-cases
              (reconcile_progress errors gv conditions cue rendering world marked t)) [
                | inr (e, wrong) ↦ ground (arith, fine, wrong)
                | inl (progress, listed) ↦ ground (arith, fine, listed)
              ]
      ]

  -- The objects other than the workload are those of a state.
  abbrev pub IsSame : Workload → S → View ResourceKey Unstructured → Type 0
  IsSame w s' view = (k : ResourceKey) → k ≢ workload_resource gv w → stored s' k ≡ view k

  -- A reconciliation changes nothing at all, or what its rendering of the template changes.
  reconcile_workload-IsSame :
      (key : ObjectKey) (s : S)
      → let w = (world.get_workload key s).0 in
        let s' = (reconcile_workload errors gv conditions cue rendering world key s).0 in
        (s' ≡ s)
        ⊎ IsSame w s'
            (stored (reconcile_workload_template errors gv conditions cue rendering world w s).0)
  unfolding reconcile_workload
  reconcile_workload-IsSame key s =
      let (w, e) = world.get_workload key s in
      elim (Option-cases e) [
        | inr (problem, missing) ↦
            inl (ground (arith, missing, return_error-state (errors.ignore_not_found e) s))
        | inl got ↦ elim (Option-cases (world.new_workload_helper w s)) [
          | inr (problem, refused) ↦ inl (ground (arith, got, refused))
          | inl made ↦ inr (λ k ne.
              ap (λ t. stored t k)
                (reconcile_workload-state errors gv conditions cue rendering world key s got made)
              ∙ patches w _ (reconcile_steps errors gv conditions cue rendering world w s).0 k ne
              ∙ ap (λ t. stored t k) (steps-state w s))
        ]
      ]

  -- The values are those of the template that is found for the workload, and the objects other than
  -- the workload are exactly those that some of the values at the front ask for, one after the other.
  abbrev pub IsSoFar : Workload → S → S → Type 0
  IsSoFar w s s' =
      (cluster : Cluster) × (front : List Value) × (rest : List Value) × IsReached errors gv
        conditions cue rendering world w s cluster (front ++ rest)
      × IsSame w s' (desired_view gv cue rendering w cluster front (stored s))

  -- Whatever a reconciliation returns, an error or a panic included, the objects other than the workload
  -- are as before, or they are exactly those that the specification gives for the fields of the
  -- workload's template, in order and without a gap, up to some field: there is no other state in which
  -- it may stop.
  pub reconcile_workload-IsSoFar :
      (key : ObjectKey) (s : S)
      → let w = (world.get_workload key s).0 in
        let s' = (reconcile_workload errors gv conditions cue rendering world key s).0 in
        IsSame w s' (stored s) ⊎ IsSoFar w s s'
  reconcile_workload-IsSoFar key s = elim (reconcile_workload-IsSame key s) [
    | inl same ↦ inl (λ k ne. ap (λ t. stored t k) same)
    | inr same ↦
        let w = (world.get_workload key s).0 in
        elim (reconcile_workload_template-cases errors gv conditions cue rendering world
          lawful_errors w s) [
            | inl (kept, returned) ↦ inl (λ k ne. same k ne ∙ ap (λ t. stored t k) kept)
            | inr (cluster, values, is_reached, result) ↦
                let (front, rest, split, at_front) =
                  apply_fields-IsPrefix errors gv conditions cue rendering world w cluster stored
                    lawful sets values s in
                inr (
                  cluster,
                  front,
                  rest,
                  subst (λ vs. IsReached errors gv conditions cue rendering world w s cluster vs)
                      split is_reached,
                  λ k ne. same k ne ∙ ap (λ t. stored t.0 k) result ∙ ap (λ view. view k) at_front,
                )
          ]
  ]
