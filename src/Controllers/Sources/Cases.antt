-- ===== src/Controllers/Sources/Cases.antt =====
-- What one reconciliation of an inventory does to the cluster.
use dockyards_flux.Base.{String, ◌≡◌, ◌⊎◌, inl, inr, refl, arith, Option-cases}
use dockyards_flux.Base.StringMap
use dockyards_flux.Base.Outcome.{Outcome, done, failed, panicked}
use dockyards_flux.Api.Constants.{label_cluster_name, label_workload_name}
use dockyards_flux.Api.Errors.{ApiErrors}
use dockyards_flux.Api.Flux.{FluxVersions}
use dockyards_flux.Api.World.{World, OperationResult}
use dockyards_flux.Controllers.Inventory.{return_operation}
use dockyards_flux.Controllers.Kustomization.{reconcile_kustomization_inventory}
use dockyards_flux.Controllers.HelmRelease.{reconcile_helm_release_inventory, ignore_operation}
use dockyards_flux.Controllers.SourceRepository.{
  reconcile_helm_repository_inventory, reconcile_oci_repository_inventory,
}
use dockyards_flux.Controllers.Sources.{
  Source, of_kustomization, of_helm_release, of_helm_repository, of_oci_repository, source_meta,
  Names, IsUnlabelled, reconcile_inventory, write_inventory,
}

return_operation-state :
    {S E : Type 0} (result : S × Outcome E OperationResult) → (return_operation result).0 ≡ result.0
return_operation-state (s, done op) = refl
return_operation-state (s, failed e) = refl
return_operation-state (s, panicked) = refl

ignore_operation-state :
    {S E : Type 0} (result : S × Outcome E OperationResult) → (ignore_operation result).0 ≡ result.0
ignore_operation-state (s, done op) = refl
ignore_operation-state (s, failed e) = refl
ignore_operation-state (s, panicked) = refl

module _ {S E : Type 0} (errors : ApiErrors E) (flux : FluxVersions) (world : World S E) where
  unlabelled :
      (x : Source) (s : S)
      → IsUnlabelled x
      → reconcile_inventory errors flux world x s ≡ (s, done tt)
  unfolding reconcile_kustomization_inventory reconcile_helm_release_inventory
      reconcile_helm_repository_inventory reconcile_oci_repository_inventory
  unlabelled (of_kustomization k) s missing = ground arith
  unlabelled (of_helm_release r) s missing = ground arith
  unlabelled (of_helm_repository r) s missing = ground arith
  unlabelled (of_oci_repository r) s missing = ground arith

  -- The state after a reconciliation of a labelled object is that after its CreateOrPatch.
  pub reconcile_inventory-write_inventory :
      (x : Source) (w c : String) (s : S)
      → Names x w c
      → (reconcile_inventory errors flux world x s).0
        ≡ (write_inventory errors flux world x w c s).0
  unfolding reconcile_kustomization_inventory reconcile_helm_release_inventory
      reconcile_helm_repository_inventory reconcile_oci_repository_inventory
  reconcile_inventory-write_inventory (of_kustomization k) w c s (named, placed) =
      let written = write_inventory errors flux world (of_kustomization k) w c s in
      ground (arith, named, placed, return_operation-state written)
  reconcile_inventory-write_inventory (of_helm_release r) w c s (named, placed) =
      let written = write_inventory errors flux world (of_helm_release r) w c s in
      ground (arith, named, placed, ignore_operation-state written)
  reconcile_inventory-write_inventory (of_helm_repository r) w c s (named, placed) =
      let written = write_inventory errors flux world (of_helm_repository r) w c s in
      ground (arith, named, placed, return_operation-state written)
  reconcile_inventory-write_inventory (of_oci_repository r) w c s (named, placed) =
      let written = write_inventory errors flux world (of_oci_repository r) w c s in
      ground (arith, named, placed, return_operation-state written)

  -- Where both labels are there the state is that after its CreateOrPatch, whatever that returns;
  -- otherwise it is as before.
  pub reconcile_inventory-cases :
      (x : Source) (s : S)
      → (IsUnlabelled x × (reconcile_inventory errors flux world x s ≡ (s, done tt)))
        ⊎ ((workload : String) × (cluster : String) × Names x workload cluster
            × ((reconcile_inventory errors flux world x s).0
                ≡ (write_inventory errors flux world x workload cluster s).0))
  reconcile_inventory-cases x s =
      elim (Option-cases (StringMap.lookup label_workload_name (source_meta x).labels)) [
        | inl missing ↦ inl (inl missing, unlabelled x s (inl missing))
        | inr (w, named) ↦
            elim (Option-cases (StringMap.lookup label_cluster_name (source_meta x).labels)) [
              | inl missing ↦ inl (inr missing, unlabelled x s (inr missing))
              | inr (c, placed) ↦ inr (
                w,
                c,
                (named, placed),
                reconcile_inventory-write_inventory x w c s (named, placed),
              )
            ]
      ]
