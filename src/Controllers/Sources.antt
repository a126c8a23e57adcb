-- ===== src/Controllers/Sources.antt =====
-- The objects of controllers/ that get an inventory, and the four controllers that write it, as one.
pub mod Reports
pub mod Absorbing
pub mod Cases
use dockyards_flux.Base.{
  String, ◌<>◌, Option, none, some, [], ◌∷◌, ◌≡◌, ◌≢◌, ◌⊎◌, inl, inr, refl, arith, sym, ap, ◌∙◌,
  Option-cases,
}
use dockyards_flux.Base.StringMap
use dockyards_flux.Base.Outcome.{Outcome, done, failed, panicked}
use dockyards_flux.Api.Constants.{
  label_cluster_name, label_workload_name, kustomization_kind, helm_release_kind,
  helm_repository_kind, oci_repository_kind,
}
use dockyards_flux.Api.Objects.{ObjectKey, ObjectMeta, OwnerReference}
use dockyards_flux.Api.Errors.{ApiErrors}
use dockyards_flux.Api.Flux.{
  Kustomization, HelmRelease, Chart, Repository, WorkloadInventory, LabelSelector, FluxVersions,
}
use dockyards_flux.Api.World.{World, OperationResult, object_key}
use dockyards_flux.Controllers.Inventory.{
  Reconciled, owner_reference, return_operation, fill_inventory,
}
use dockyards_flux.Controllers.Inventory.Callback.{fill_inventory-Mirrors, fill_inventory_absorbs}
use dockyards_flux.Controllers.InventoryNames.{
  InventoryKind, kustomization, helm_release, helm_repository, oci_repository, suffix,
}
use dockyards_flux.Controllers.Kustomization.{
  reconcile_kustomization_inventory, kustomization_inventory, fill_kustomization_inventory,
}
use dockyards_flux.Controllers.Kustomization.Mirroring.{kustomization_selector}
use dockyards_flux.Controllers.HelmRelease.{
  reconcile_helm_release_inventory, helm_release_inventory, fill_helm_release_inventory,
  ignore_operation, helm_release_selector,
}
use dockyards_flux.Controllers.SourceRepository.{
  reconcile_helm_repository_inventory, reconcile_oci_repository_inventory, source_selector,
  helm_repository_inventory, oci_repository_inventory, fill_helm_repository_inventory,
  fill_oci_repository_inventory,
}

pub data Source : Type 0 where
  of_kustomization : Kustomization → Source
  of_helm_release : HelmRelease → Source
  of_helm_repository : Repository → Source
  of_oci_repository : Repository → Source

abbrev pub source_meta : Source → ObjectMeta
source_meta (of_kustomization k) = k.meta
source_meta (of_helm_release r) = r.meta
source_meta (of_helm_repository r) = r.meta
source_meta (of_oci_repository r) = r.meta

abbrev pub source_kind : Source → InventoryKind
source_kind (of_kustomization k) = kustomization
source_kind (of_helm_release r) = helm_release
source_kind (of_helm_repository r) = helm_repository
source_kind (of_oci_repository r) = oci_repository

abbrev pub inventory_for : Source → WorkloadInventory
inventory_for (of_kustomization k) = kustomization_inventory k
inventory_for (of_helm_release r) = helm_release_inventory r
inventory_for (of_helm_repository r) = helm_repository_inventory r
inventory_for (of_oci_repository r) = oci_repository_inventory r

-- The key of the inventory for an object of a kind.
abbrev pub inventory_of : InventoryKind → ObjectKey → ObjectKey
inventory_of kind key = record { namespace = key.namespace; name = key.name <> suffix kind }

abbrev pub source_key : Source → ObjectKey
source_key x = object_key (source_meta x)

pub inventory_for-inventory_of :
    (x : Source) → object_key (inventory_for x).meta ≡ inventory_of (source_kind x) (source_key x)
inventory_for-inventory_of (of_kustomization k) = refl
inventory_for-inventory_of (of_helm_release r) = refl
inventory_for-inventory_of (of_helm_repository r) = refl
inventory_for-inventory_of (of_oci_repository r) = refl

-- The object names a workload and a cluster in its labels.
abbrev pub Names : Source → String → String → Type 0
Names x workload cluster =
    (StringMap.lookup label_workload_name (source_meta x).labels ≡ some workload)
    × (StringMap.lookup label_cluster_name (source_meta x).labels ≡ some cluster)

abbrev pub IsUnlabelled : Source → Type 0
IsUnlabelled x =
    (StringMap.lookup label_workload_name (source_meta x).labels ≡ none)
    ⊎ (StringMap.lookup label_cluster_name (source_meta x).labels ≡ none)

-- The labels of what a source controller makes of a repository.
abbrev pub IsFromSource : Repository → LabelSelector → Type 0
IsFromSource r selector = selector ≡ record {
  match_labels =
      ("source.toolkit.fluxcd.io/name", r.meta.name)
      ∷ ("source.toolkit.fluxcd.io/namespace", r.meta.namespace)
      ∷ [];
  match_expressions = [];
}

module _ (flux : FluxVersions) where
  -- The API version and the kind of the object.
  abbrev pub type_of : Source → String × String
  type_of (of_kustomization k) = (flux.kustomize_group_version, "Kustomization")
  type_of (of_helm_release r) = (flux.helm_group_version, "HelmRelease")
  type_of (of_helm_repository r) = (flux.source_group_version, "HelmRepository")
  type_of (of_oci_repository r) = (flux.source_group_version, "OCIRepository")

  -- The object as the owner of its inventory: by its type, its name and its uid.
  abbrev pub owner_for : Source → OwnerReference
  owner_for x = record {
    api_version = (type_of x).0;
    kind = (type_of x).1;
    name = (source_meta x).name;
    uid = (source_meta x).uid;
    block_owner_deletion = none;
    controller = none;
  }

  -- The labels that Flux and Helm give to what the object makes, with its name and its namespace; those
  -- of a Helm release need its chart.
  abbrev pub Selects : Source → LabelSelector → Type 0
  Selects (of_kustomization k) selector = selector ≡ record {
    match_labels =
        ("kustomize.toolkit.fluxcd.io/name", k.meta.name)
        ∷ ("kustomize.toolkit.fluxcd.io/namespace", k.meta.namespace)
        ∷ [];
    match_expressions = [];
  }
  Selects (of_helm_release r) selector =
      (chart : Chart) × (r.chart ≡ some chart)
      × (selector ≡ record {
        match_labels =
            ("app.kubernetes.io/managed-by", "Helm")
            ∷ ("app.kubernetes.io/name", chart.chart)
            ∷ ("app.kubernetes.io/version", chart.version)
            ∷ ("helm.sh/chart", chart.chart <> ("-" <> chart.version))
            ∷ ("helm.toolkit.fluxcd.io/name", r.meta.name)
            ∷ ("helm.toolkit.fluxcd.io/namespace", r.meta.namespace)
            ∷ [];
        match_expressions = [];
      })
  Selects (of_helm_repository r) selector = IsFromSource r selector
  Selects (of_oci_repository r) selector = IsFromSource r selector

  -- The inventory tells the workload and the cluster, is owned by the object alone, and selects what
  -- the object makes.
  pub record IsReport (x : Source) (workload cluster : String) (inventory : WorkloadInventory)
      : Type 0 where
    pub of_workload : StringMap.lookup label_workload_name inventory.labels ≡ some workload
    pub of_cluster : StringMap.lookup label_cluster_name inventory.labels ≡ some cluster
    pub owned : inventory.owner_references ≡ owner_for x ∷ []
    pub selects : Selects x inventory.selector

  module _ {E : Type 0} where
    -- The callback for the object.
    abbrev pub fill_for : Source → String → String → WorkloadInventory → Outcome E WorkloadInventory
    fill_for (of_kustomization k) workload cluster =
        fill_kustomization_inventory flux k workload cluster
    fill_for (of_helm_release r) workload cluster =
        fill_helm_release_inventory flux r cluster workload
    fill_for (of_helm_repository r) workload cluster =
        fill_helm_repository_inventory flux r cluster workload
    fill_for (of_oci_repository r) workload cluster =
        fill_oci_repository_inventory flux r cluster workload

module _ {S E : Type 0} (errors : ApiErrors E) (flux : FluxVersions) (world : World S E) where
  -- The reconciliation by the controller for the object.
  abbrev pub reconcile_inventory : Source → S → Reconciled S E
  reconcile_inventory (of_kustomization k) s =
      reconcile_kustomization_inventory errors flux world k s
  reconcile_inventory (of_helm_release r) s = reconcile_helm_release_inventory errors flux world r s
  reconcile_inventory (of_helm_repository r) s =
      reconcile_helm_repository_inventory errors flux world r s
  reconcile_inventory (of_oci_repository r) s =
      reconcile_oci_repository_inventory errors flux world r s

  -- Its CreateOrPatch, where it comes to that.
  abbrev pub write_inventory : Source → String → String → S → S × Outcome E OperationResult
  write_inventory x workload cluster s =
      world.create_or_patch_inventory (inventory_for x) (fill_for flux x workload cluster) s
