-- ===== src/Controllers/Workload/Untouched.antt =====
-- What no reconciliation of controllers/dockyardsworkload_controller.go does to the objects in the
-- cluster.
use dockyards_flux.Base.{
  some, List, [], ◌∷◌, ◌≡◌, ◌≢◌, inl, inr, refl, arith, ap, ◌∙◌, sym, Bool-cases,
}
use dockyards_flux.Base.Outcome.{Result, ok, err}
use dockyards_flux.Base.View.{View}
use dockyards_flux.Api.Objects.{ObjectKey, Cluster, Workload}
use dockyards_flux.Api.Errors.{ApiErrors, IsLawfulErrors}
use dockyards_flux.Api.Client.{GroupVersions}
use dockyards_flux.Api.Cue.{Cue}
use dockyards_flux.Api.Conditions.{Conditions}
use dockyards_flux.Api.Rendering.{
  Rendering, WorkloadWorld, Unstructured, ResourceKey, resource_key, same_resource,
  same_resource-IsKeyTest, SetsSpec,
}
use dockyards_flux.Api.World.{IsLawfulCreateOrPatch}
use dockyards_flux.Controllers.Workload.Reconciling.{reconcile_workload}
use dockyards_flux.Controllers.Workload.Desired.{desired, desired_view, update}
use dockyards_flux.Controllers.Workload.Kept.{
  workload_resource, PatchesOnly, reconcile_workload-IsSoFar,
}

-- The two are one object: what tells it apart, its uid and the time of its deletion are the same.
pub record IsOne (before after : Unstructured) : Type 0 where
  pub same_key : resource_key after ≡ resource_key before
  pub same_uid : after.uid ≡ before.uid
  pub same_deletion : after.deletion_timestamp ≡ before.deletion_timestamp

pub IsOne-trans : (a b c : Unstructured) → IsOne a b → IsOne b c → IsOne a c
IsOne-trans a b c p q = record {
  same_key = q.same_key ∙ p.same_key;
  same_uid = q.same_uid ∙ p.same_uid;
  same_deletion = q.same_deletion ∙ p.same_deletion;
}

pub IsOne-refl : (a : Unstructured) → IsOne a a
IsOne-refl a = record { same_key = refl; same_uid = refl; same_deletion = refl }

module _ {E : Type 0} (gv : GroupVersions) (cue : Cue E) (rendering : Rendering cue) (w : Workload)
    (cluster : Cluster) where
  open cue use {Value}
  open rendering use {decode_object}

  update-IsOne :
      (v : Value) (decoded : Result E Unstructured) (view : View ResourceKey Unstructured)
      (k : ResourceKey) (u : Unstructured)
      → view k ≡ some u
      → (u' : Unstructured) × (update gv cue rendering w cluster v decoded view k ≡ some u')
        × IsOne u u'
  update-IsOne v (err e) view k u here = (u, here, IsOne-refl u)
  update-IsOne v (ok x) view k u here = elim (Bool-cases (same_resource k (resource_key x))) [
    | inr differs ↦ (u, ground (arith, differs, here), IsOne-refl u)
    | inl same ↦
        let there : view (resource_key x) ≡ some u =
          ap view (sym ((same_resource-IsKeyTest k (resource_key x)).0 same)) ∙ here in
        (
          desired gv cue rendering w cluster v u,
          ground (arith, same, there),
          record { same_key = refl; same_uid = refl; same_deletion = refl },
        )
  ]

  desired_view-IsOne :
      (vs : List Value) (view : View ResourceKey Unstructured) (k : ResourceKey) (u : Unstructured)
      → view k ≡ some u
      → (u' : Unstructured) × (desired_view gv cue rendering w cluster vs view k ≡ some u')
        × IsOne u u'
  unfolding desired_view
  desired_view-IsOne [] view k u here = (u, here, IsOne-refl u)
  desired_view-IsOne (v ∷ vs) view k u here =
      let (mid, there, one) = update-IsOne v (decode_object v) view k u here in
      let (after, found, one') =
        desired_view-IsOne vs (update gv cue rendering w cluster v (decode_object v) view) k mid
          there in
      (after, found, IsOne-trans u mid after one one')

module _ {S E : Type 0} (errors : ApiErrors E) (gv : GroupVersions) (conditions : Conditions E)
    (cue : Cue E) (rendering : Rendering cue) (world : WorkloadWorld S E)
    (stored : S → View ResourceKey Unstructured)
    (lawful : IsLawfulCreateOrPatch resource_key stored world.create_or_patch)
    (sets : SetsSpec rendering) (patches : PatchesOnly gv world stored)
    (lawful_errors : IsLawfulErrors errors) where
  open cue use {Value}

  -- Whatever a reconciliation of a workload returns, every object that was in the cluster, the workload
  -- apart, is still there: no object is removed, also none that the template no longer renders, and none
  -- is replaced by another one of its name.
  pub reconcile_workload-IsOne :
      (key : ObjectKey) (s : S) (k : ResourceKey) (u : Unstructured)
      → k ≢ workload_resource gv (world.get_workload key s).0
      → stored s k ≡ some u
      → (u' : Unstructured) × (stored
            (reconcile_workload errors gv conditions cue rendering world key s).0
            k
          ≡ some u')
        × IsOne u u'
  reconcile_workload-IsOne key s k u ne here =
      let so_far =
        reconcile_workload-IsSoFar errors gv conditions cue rendering world stored lawful sets
          patches lawful_errors key s in
      elim so_far [
        | inl same ↦ (u, same k ne ∙ here, IsOne-refl u)
        | inr (cluster, front, rest, is_reached, same) ↦
            let (after, found, one) =
              desired_view-IsOne gv cue rendering (world.get_workload key s).0 cluster front
                (stored s) k u here in
            (after, same k ne ∙ found, one)
      ]
