-- ===== src/Controllers/Sources/Absorbing.antt =====
-- What an inventory was filled with for an earlier version of an object leaves no trace.
use dockyards_flux.Base.{String, ◌≡◌, ◌≢◌, inl, inr, arith, Option-cases}
use dockyards_flux.Base.Outcome.{done}
use dockyards_flux.Api.Constants.{label_cluster_name, label_workload_name}
use dockyards_flux.Api.Flux.{HelmRelease, WorkloadInventory, FluxVersions}
use dockyards_flux.Controllers.Inventory.{fill_inventory}
use dockyards_flux.Controllers.Inventory.Callback.{fill_inventory_absorbs}
use dockyards_flux.Controllers.Kustomization.{fill_kustomization_inventory}
use dockyards_flux.Controllers.HelmRelease.{fill_helm_release_inventory, helm_release_selector}
use dockyards_flux.Controllers.SourceRepository.{
  fill_helm_repository_inventory, fill_oci_repository_inventory,
}
use dockyards_flux.Controllers.Sources.{
  Source, of_kustomization, of_helm_release, of_helm_repository, of_oci_repository, source_kind,
  owner_for, fill_for,
}

labels_ne : label_workload_name ≢ label_cluster_name
labels_ne e = cc

labels_ne' : label_cluster_name ≢ label_workload_name
labels_ne' e = cc

module _ (flux : FluxVersions) {E : Type 0} where
  helm_absorbs :
      (x y : HelmRelease) (w c w' c' : String) (before after : WorkloadInventory)
      → fill_for flux {E = E} (of_helm_release x) w c before ≡ done after
      → fill_for flux {E = E} (of_helm_release y) w' c' after
        ≡ fill_for flux (of_helm_release y) w' c' before
  unfolding fill_helm_release_inventory
  helm_absorbs x y w c w' c' before after h = elim (Option-cases x.chart) [
    | inl absent ↦ ground (arith, absent)
    | inr (chart, present) ↦ elim (Option-cases y.chart) [
      | inl absent ↦ ground (arith, absent)
      | inr (chart', present') ↦
          let filled : fill_inventory {E = E} (owner_for flux (of_helm_release x))
                (label_cluster_name, c) (label_workload_name, w) (helm_release_selector x chart)
                before
              ≡ done after =
            ground (arith, present) in
          ground (
            arith,
            present',
            fill_inventory_absorbs {E = E} (owner_for flux (of_helm_release x))
                (owner_for flux (of_helm_release y)) label_cluster_name c' c label_workload_name w'
                w (helm_release_selector x chart) (helm_release_selector y chart') before after
                labels_ne' filled,
          )
    ]
  ]

  -- Filled for one version of an object and then for another, an inventory is as if it had been filled
  -- for the later one alone.
  pub fill_for_absorbs :
      (x y : Source) (w c w' c' : String) (before after : WorkloadInventory)
      → source_kind x ≡ source_kind y
      → fill_for flux {E = E} x w c before ≡ done after
      → fill_for flux {E = E} y w' c' after ≡ fill_for flux y w' c' before
  unfolding fill_kustomization_inventory fill_helm_repository_inventory
      fill_oci_repository_inventory
  fill_for_absorbs (of_kustomization x) (of_kustomization y) w c w' c' before after same h =
      fill_inventory_absorbs {E = E} _ _ label_workload_name w' w label_cluster_name c' c _ _ before
        after labels_ne h
  fill_for_absorbs (of_helm_release x) (of_helm_release y) w c w' c' before after same h =
      helm_absorbs x y w c w' c' before after h
  fill_for_absorbs (of_helm_repository x) (of_helm_repository y) w c w' c' before after same h =
      fill_inventory_absorbs {E = E} _ _ label_cluster_name c' c label_workload_name w' w _ _ before
        after labels_ne' h
  fill_for_absorbs (of_oci_repository x) (of_oci_repository y) w c w' c' before after same h =
      fill_inventory_absorbs {E = E} _ _ label_cluster_name c' c label_workload_name w' w _ _ before
        after labels_ne' h
  fill_for_absorbs _ _ w c w' c' before after same h = ground (arith, same)
