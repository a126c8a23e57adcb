-- ===== src/Controllers/Sources/Reports.antt =====
-- The callbacks of the inventory controllers make a report of the object.
use dockyards_flux.Base.{String, ◌≡◌, ◌≢◌, inl, inr, arith, Option-cases}
use dockyards_flux.Base.Outcome.{done}
use dockyards_flux.Api.Constants.{label_cluster_name, label_workload_name}
use dockyards_flux.Api.Flux.{WorkloadInventory, FluxVersions}
use dockyards_flux.Controllers.Inventory.Callback.{fill_inventory-Mirrors}
use dockyards_flux.Controllers.Kustomization.{fill_kustomization_inventory}
use dockyards_flux.Controllers.HelmRelease.{fill_helm_release_inventory, helm_release_selector}
use dockyards_flux.Controllers.SourceRepository.{
  fill_helm_repository_inventory, fill_oci_repository_inventory,
}
use dockyards_flux.Controllers.Sources.{
  Source, of_kustomization, of_helm_release, of_helm_repository, of_oci_repository, owner_for,
  IsReport, fill_for,
}

labels_ne : label_workload_name ≢ label_cluster_name
labels_ne e = cc

labels_ne' : label_cluster_name ≢ label_workload_name
labels_ne' e = cc

module _ (flux : FluxVersions) {E : Type 0} where
  pub fill_for-IsReport :
      (x : Source) (workload cluster : String) (before after : WorkloadInventory)
      → fill_for flux {E = E} x workload cluster before ≡ done after
      → IsReport flux x workload cluster after
  unfolding fill_kustomization_inventory fill_helm_release_inventory fill_helm_repository_inventory
      fill_oci_repository_inventory
  fill_for-IsReport (of_kustomization k) w c before after h =
      let m =
        fill_inventory-Mirrors {E = E} _ label_workload_name w label_cluster_name c _ labels_ne
          before after h in
      record {
        of_workload = m.first_label;
        of_cluster = m.second_label;
        owned = m.owned;
        selects = m.selected;
      }
  fill_for-IsReport (of_helm_release r) w c before after h = elim (Option-cases r.chart) [
    | inl absent ↦ ground (arith, absent)
    | inr (chart, present) ↦
        let m =
          fill_inventory-Mirrors {E = E} (owner_for flux (of_helm_release r)) label_cluster_name c
            label_workload_name w (helm_release_selector r chart) labels_ne' before after
            (ground (arith, present)) in
        record {
          of_workload = m.second_label;
          of_cluster = m.first_label;
          owned = m.owned;
          selects = (chart, present, m.selected);
        }
  ]
  fill_for-IsReport (of_helm_repository r) w c before after h =
      let m =
        fill_inventory-Mirrors {E = E} _ label_cluster_name c label_workload_name w _ labels_ne'
          before after h in
      record {
        of_workload = m.second_label;
        of_cluster = m.first_label;
        owned = m.owned;
        selects = m.selected;
      }
  fill_for-IsReport (of_oci_repository r) w c before after h =
      let m =
        fill_inventory-Mirrors {E = E} _ label_cluster_name c label_workload_name w _ labels_ne'
          before after h in
      record {
        of_workload = m.second_label;
        of_cluster = m.first_label;
        owned = m.owned;
        selects = m.selected;
      }
