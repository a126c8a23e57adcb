-- ===== src/Controllers/SourceRepository.antt =====
-- controllers/sourcerepository_controller.go
pub mod Mirroring
use dockyards_flux.Base.{
  String, ◌<>◌, Bool, Option, none, some, List, [], ◌∷◌, if◌then◌else◌, is_some, not, ◌&&◌,
}
use dockyards_flux.Base.Outcome.{Outcome, done, failed, panicked}
use dockyards_flux.Base.StringMap
use dockyards_flux.Base.StringMap.{Entries}
use dockyards_flux.Api.Constants.{
  label_cluster_name, label_workload_name, helm_repository_kind, oci_repository_kind,
}
use dockyards_flux.Api.Objects.{ObjectKey, ObjectMeta, is_zero}
use dockyards_flux.Api.Errors.{ApiErrors}
use dockyards_flux.Api.Flux.{Repository, WorkloadInventory, FluxVersions}
use dockyards_flux.Api.World.{World}
use dockyards_flux.Controllers.Inventory.{
  Reconciled, return_error, new_inventory, owner_reference, fill_inventory, return_operation,
}

abbrev pub helm_repository_suffix : String
helm_repository_suffix = "-j3w8d"

abbrev pub oci_repository_suffix : String
oci_repository_suffix = "-v5f7k"

abbrev pub helm_repository_inventory : Repository → WorkloadInventory
helm_repository_inventory r = new_inventory (r.name <> helm_repository_suffix) r.namespace

abbrev pub oci_repository_inventory : Repository → WorkloadInventory
oci_repository_inventory r = new_inventory (r.name <> oci_repository_suffix) r.namespace

abbrev pub source_selector : Repository → Entries
source_selector r =
    ("source.toolkit.fluxcd.io/name", r.name)
    ∷ ("source.toolkit.fluxcd.io/namespace", r.namespace)
    ∷ []

module _ (flux : FluxVersions) where
  -- the callback of `reconcileHelmRepositoryWorkloadInventory`
  unfoldable pub fill_helm_repository_inventory :
      {E : Type 0} → Repository → String → String → WorkloadInventory → Outcome E WorkloadInventory
  unfolding fill_inventory
  fill_helm_repository_inventory r cluster_name workload_name =
      fill_inventory (owner_reference flux.source_group_version helm_repository_kind r.meta)
        (label_cluster_name, cluster_name) (label_workload_name, workload_name) (source_selector r)

  -- the callback of `reconcileOCIRepositoryWorkloadInventory`
  unfoldable pub fill_oci_repository_inventory :
      {E : Type 0} → Repository → String → String → WorkloadInventory → Outcome E WorkloadInventory
  unfolding fill_inventory
  fill_oci_repository_inventory r cluster_name workload_name =
      fill_inventory (owner_reference flux.source_group_version oci_repository_kind r.meta)
        (label_cluster_name, cluster_name) (label_workload_name, workload_name) (source_selector r)

module _ {S E : Type 0} (errors : ApiErrors E) (flux : FluxVersions) (world : World S E) where
  unfoldable pub reconcile_helm_repository_inventory : Repository → S → Reconciled S E
  reconcile_helm_repository_inventory r s = elim (StringMap.lookup label_cluster_name r.labels) [
    | none ↦ (s, done tt)
    | some cluster_name ↦ elim (StringMap.lookup label_workload_name r.labels) [
      | none ↦ (s, done tt)
      | some workload_name ↦ return_operation (
          world.create_or_patch_inventory (helm_repository_inventory r)
            (fill_helm_repository_inventory flux r cluster_name workload_name) s)
    ]
  ]

  unfoldable pub reconcile_oci_repository_inventory : Repository → S → Reconciled S E
  reconcile_oci_repository_inventory r s = elim (StringMap.lookup label_cluster_name r.labels) [
    | none ↦ (s, done tt)
    | some cluster_name ↦ elim (StringMap.lookup label_workload_name r.labels) [
      | none ↦ (s, done tt)
      | some workload_name ↦ return_operation (
          world.create_or_patch_inventory (oci_repository_inventory r)
            (fill_oci_repository_inventory flux r cluster_name workload_name) s)
    ]
  ]

  -- the second half of `Reconcile`: the OCI repository of the key
  unfoldable pub reconcile_oci_repository : ObjectKey → S → Reconciled S E
  reconcile_oci_repository key s =
      let (r, e) = world.get_oci_repository key s in
      if is_some (errors.ignore_not_found e)
      then return_error e s
      else if not (is_some e) && is_zero r.deletion_timestamp
      then reconcile_oci_repository_inventory r s
      else (s, done tt)

  -- the first half: the Helm repository of the key
  unfoldable pub reconcile_helm_repository : ObjectKey → S → Reconciled S E
  reconcile_helm_repository key s =
      let (r, e) = world.get_helm_repository key s in
      if is_some (errors.ignore_not_found e)
      then return_error e s
      else if not (is_some e) && is_zero r.deletion_timestamp
      then reconcile_helm_repository_inventory r s
      else (s, done tt)

  -- the second half runs only where the first returned no error
  unfoldable pub reconcile_source_repository : ObjectKey → S → Reconciled S E
  reconcile_source_repository key s =
      let (s', outcome) = reconcile_helm_repository key s in
      elim outcome [
        | done _ ↦ reconcile_oci_repository key s'
        | failed e ↦ (s', failed e)
        | panicked ↦ (s', panicked)
      ]

-- objectToRequest
abbrev pub object_to_request : ObjectMeta → List ObjectKey
object_to_request meta = record { namespace = meta.namespace; name = meta.name } ∷ []
