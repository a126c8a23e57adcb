-- ===== src/Controllers/HelmRelease.antt =====
-- controllers/helmrelease_controller.go
pub mod Mirroring
use dockyards_flux.Base.{
  String, ◌<>◌, Bool, Option, none, some, List, [], ◌∷◌, if◌then◌else◌, is_some, not,
}
use dockyards_flux.Base.Outcome.{Outcome, done, failed, panicked}
use dockyards_flux.Base.StringMap
use dockyards_flux.Base.StringMap.{Entries}
use dockyards_flux.Api.Constants.{label_cluster_name, label_workload_name, helm_release_kind}
use dockyards_flux.Api.Objects.{ObjectKey, is_zero}
use dockyards_flux.Api.Errors.{ApiErrors}
use dockyards_flux.Api.Flux.{HelmRelease, Chart, WorkloadInventory, FluxVersions}
use dockyards_flux.Api.World.{World, OperationResult}
use dockyards_flux.Controllers.Inventory.{
  Reconciled, return_error, new_inventory, owner_reference, fill_inventory,
}

abbrev pub helm_release_suffix : String
helm_release_suffix = "-lpfhh"

abbrev pub helm_release_inventory : HelmRelease → WorkloadInventory
helm_release_inventory r = new_inventory (r.name <> helm_release_suffix) r.namespace

abbrev pub helm_release_selector : HelmRelease → Chart → Entries
helm_release_selector r chart =
    ("app.kubernetes.io/managed-by", "Helm")
    ∷ ("app.kubernetes.io/name", chart.chart)
    ∷ ("app.kubernetes.io/version", chart.version)
    ∷ ("helm.sh/chart", chart.chart <> ("-" <> chart.version))
    ∷ ("helm.toolkit.fluxcd.io/name", r.name)
    ∷ ("helm.toolkit.fluxcd.io/namespace", r.namespace)
    ∷ []

module _ (flux : FluxVersions) where
  -- the callback of `reconcileWorkloadInventory`; it follows `Spec.Chart` with no check for nil
  unfoldable pub fill_helm_release_inventory :
      {E : Type 0} → HelmRelease → String → String → WorkloadInventory → Outcome E WorkloadInventory
  unfolding fill_inventory
  fill_helm_release_inventory r cluster_name workload_name inventory = elim r.chart [
    | none ↦ panicked
    | some chart ↦
        fill_inventory (owner_reference flux.helm_group_version helm_release_kind r.meta)
          (label_cluster_name, cluster_name) (label_workload_name, workload_name)
          (helm_release_selector r chart) inventory
  ]

-- `if err != nil { return ctrl.Result{}, nil }` after the CreateOrPatch
abbrev pub ignore_operation : {S E : Type 0} → S × Outcome E OperationResult → Reconciled S E
ignore_operation (s, done op) = (s, done tt)
ignore_operation (s, failed e) = (s, done tt)
ignore_operation (s, panicked) = (s, panicked)

module _ {S E : Type 0} (errors : ApiErrors E) (flux : FluxVersions) (world : World S E) where
  unfoldable pub reconcile_helm_release_inventory : HelmRelease → S → Reconciled S E
  reconcile_helm_release_inventory r s = elim (StringMap.lookup label_cluster_name r.labels) [
    | none ↦ (s, done tt)
    | some cluster_name ↦ elim (StringMap.lookup label_workload_name r.labels) [
      | none ↦ (s, done tt)
      | some workload_name ↦ ignore_operation (
          world.create_or_patch_inventory (helm_release_inventory r)
            (fill_helm_release_inventory flux r cluster_name workload_name) s)
    ]
  ]

  unfoldable pub reconcile_helm_release : ObjectKey → S → Reconciled S E
  reconcile_helm_release key s =
      let (r, e) = world.get_helm_release key s in
      if is_some e
      then return_error (errors.ignore_not_found e) s
      else if not (is_zero r.deletion_timestamp)
      then (s, done tt)
      else reconcile_helm_release_inventory r s
