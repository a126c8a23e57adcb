-- ===== src/Controllers/Kustomization.antt =====
-- controllers/kustomization_controller.go
pub mod Mirroring
pub mod Deletion
pub mod Patching
use dockyards_flux.Base.{
  String, ◌<>◌, Bool, true, false, Option, none, some, List, [], ◌∷◌, if◌then◌else◌, is_some, not,
  ◌||◌,
}
use dockyards_flux.Base.Outcome.{Outcome, done, failed, panicked}
use dockyards_flux.Base.StringMap
use dockyards_flux.Api.Constants.{label_cluster_name, label_workload_name, kustomization_kind}
use dockyards_flux.Api.Objects.{ObjectKey, is_zero}
use dockyards_flux.Api.Errors.{ApiErrors}
use dockyards_flux.Api.Flux.{Kustomization, WorkloadInventory, FluxVersions, minute}
use dockyards_flux.Api.World.{World, OperationResult}
use dockyards_flux.Controllers.Inventory.{
  Reconciled, return_error, new_inventory, owner_reference, fill_inventory, return_operation,
}

abbrev pub kustomization_suffix : String
kustomization_suffix = "-4l8sj"

abbrev pub kustomization_inventory : Kustomization → WorkloadInventory
kustomization_inventory k = new_inventory (k.name <> kustomization_suffix) k.namespace

module _ (flux : FluxVersions) where
  -- the callback of `reconcileWorkloadInventory`
  unfoldable pub fill_kustomization_inventory :
      {E : Type 0}
      → Kustomization
      → String
      → String
      → WorkloadInventory
      → Outcome E WorkloadInventory
  unfolding fill_inventory
  fill_kustomization_inventory k workload_name cluster_name =
      fill_inventory (owner_reference flux.kustomize_group_version kustomization_kind k.meta)
        (label_workload_name, workload_name) (label_cluster_name, cluster_name)
        (("kustomize.toolkit.fluxcd.io/name", k.name)
          ∷ ("kustomize.toolkit.fluxcd.io/namespace", k.namespace)
          ∷ [])

-- the change of `reconcileDelete` where the secret of the kubeconfig does not exist
abbrev pub stop_pruning : Kustomization → Kustomization
stop_pruning k = record k { prune = false; interval = minute }

module _ {S E : Type 0} (errors : ApiErrors E) (flux : FluxVersions) (world : World S E) where
  unfoldable pub reconcile_kustomization_inventory : Kustomization → S → Reconciled S E
  reconcile_kustomization_inventory k s = elim (StringMap.lookup label_workload_name k.labels) [
    | none ↦ (s, done tt)
    | some workload_name ↦ elim (StringMap.lookup label_cluster_name k.labels) [
      | none ↦ (s, done tt)
      | some cluster_name ↦ return_operation (
          world.create_or_patch_inventory (kustomization_inventory k)
            (fill_kustomization_inventory flux k workload_name cluster_name) s)
    ]
  ]

  delete_without_secret : Kustomization → Option E → Kustomization × Option E
  delete_without_secret k e =
      if is_some (errors.ignore_not_found e)
      then (k, e)
      else if errors.is_not_found e
      then (stop_pruning k, none)
      else (k, none)

  -- The kustomization in memory after `reconcileDelete`, and its error.
  unfoldable pub reconcile_delete : Kustomization → S → Kustomization × Option E
  unfolding delete_without_secret
  reconcile_delete k s = elim k.kube_config [
    | none ↦ (k, none)
    | some secret ↦
        if not k.prune
        then (k, none)
        else delete_without_secret k
            (world.get_secret (record { namespace = k.namespace; name = secret }) s)
  ]

  -- the deferred function: the patch, whose error is joined to the one that is returned; it runs on
  -- a panic too, which goes on afterwards
  unfoldable pub patch_deferred : Kustomization → Kustomization → Reconciled S E → Reconciled S E
  patch_deferred before after (s, outcome) =
      let (s', e) = world.patch_kustomization before after s in
      elim outcome [
        | panicked ↦ (s', panicked)
        | done _ ↦ elim e [
          | none ↦ (s', done tt)
          | some cause ↦ return_error (world.new_aggregate (none ∷ some cause ∷ [])) s'
        ]
        | failed reterr ↦ elim e [
          | none ↦ (s', failed reterr)
          | some cause ↦ return_error (world.new_aggregate (some reterr ∷ some cause ∷ [])) s'
        ]
      ]

  -- `Reconcile` once the patch helper has been made
  unfoldable pub reconcile_with_helper : Kustomization → S → Reconciled S E
  reconcile_with_helper k s =
      if not (is_zero k.deletion_timestamp)
      then (let (after, e) = reconcile_delete k s in patch_deferred k after (return_error e s))
      else patch_deferred k k (reconcile_kustomization_inventory k s)

  unfoldable pub reconcile_kustomization : ObjectKey → S → Reconciled S E
  reconcile_kustomization key s =
      let (k, e) = world.get_kustomization key s in
      if is_some e
      then return_error (errors.ignore_not_found e) s
      else elim (world.new_kustomization_helper k s) [
        | some cause ↦ (s, failed cause)
        | none ↦ reconcile_with_helper k s
      ]
