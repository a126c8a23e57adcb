-- ===== src/Controllers/Kustomization/Mirroring.antt =====
-- The inventory that controllers/kustomization_controller.go writes.
use dockyards_flux.Base.{String, Option, some, [], ◌∷◌, ◌≡◌, ◌≢◌, arith}
use dockyards_flux.Base.Outcome.{done}
use dockyards_flux.Base.StringMap
use dockyards_flux.Base.StringMap.{Entries}
use dockyards_flux.Api.Constants.{label_cluster_name, label_workload_name, kustomization_kind}
use dockyards_flux.Api.Objects.{ObjectKey}
use dockyards_flux.Api.Errors.{ApiErrors}
use dockyards_flux.Api.Flux.{Kustomization, WorkloadInventory, FluxVersions}
use dockyards_flux.Api.World.{World, IsLawfulCreateOrPatch}
use dockyards_flux.Controllers.Inventory.{owner_reference}
use dockyards_flux.Controllers.Inventory.Writing.{
  inventory_key, IsWritten, return_operation-IsWritten,
}
use dockyards_flux.Controllers.Kustomization.{
  kustomization_inventory, fill_kustomization_inventory, reconcile_kustomization_inventory,
}

abbrev pub kustomization_selector : Kustomization → Entries
kustomization_selector k =
    ("kustomize.toolkit.fluxcd.io/name", k.name)
    ∷ ("kustomize.toolkit.fluxcd.io/namespace", k.namespace)
    ∷ []

labels_ne : label_workload_name ≢ label_cluster_name
labels_ne e = cc

module _ {S E : Type 0} (errors : ApiErrors E) (flux : FluxVersions) (world : World S E)
    (stored : S → ObjectKey → Option WorkloadInventory)
    (lawful : IsLawfulCreateOrPatch inventory_key stored world.create_or_patch_inventory) where
  -- The inventory of a labelled kustomization has been written.
  abbrev pub IsKustomizationWritten : Kustomization → String → String → S → S → Type 0
  IsKustomizationWritten k workload_name cluster_name =
      IsWritten stored (kustomization_inventory k)
        (owner_reference flux.kustomize_group_version kustomization_kind k.meta) label_workload_name
        workload_name label_cluster_name cluster_name (kustomization_selector k)

  -- Where the kustomization has both labels, a reconciliation of its inventory that returns no error
  -- has stored the inventory, owned by the kustomization, with its two labels, other labels and URLs
  -- being kept, and with a selector for its name and namespace; no other inventory was touched.
  pub reconcile_kustomization_inventory-IsWritten :
      (k : Kustomization) (s s' : S) (workload_name cluster_name : String)
      → StringMap.lookup label_workload_name k.labels ≡ some workload_name
      → StringMap.lookup label_cluster_name k.labels ≡ some cluster_name
      → reconcile_kustomization_inventory errors flux world k s ≡ (s', done tt)
      → IsKustomizationWritten k workload_name cluster_name s s'
  unfolding reconcile_kustomization_inventory fill_kustomization_inventory
  reconcile_kustomization_inventory-IsWritten k s s' workload_name cluster_name w c e =
      return_operation-IsWritten stored world.create_or_patch_inventory lawful _ label_workload_name
        workload_name label_cluster_name cluster_name (kustomization_selector k) labels_ne
        (kustomization_inventory k) s s' (ground (arith, w, c))
