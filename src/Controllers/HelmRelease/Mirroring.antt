-- ===== src/Controllers/HelmRelease/Mirroring.antt =====
-- The inventory that controllers/helmrelease_controller.go writes, and the errors that it drops.
use dockyards_flux.Base.{
  String, Option, none, some, ◌≡◌, ◌≢◌, ◌⊎◌, inl, inr, refl, arith, subst, ap, ◌∙◌,
}
use mathlib.Core.Path.{fun_ext}
use dockyards_flux.Base.Outcome.{Outcome, done, failed, panicked}
use dockyards_flux.Base.StringMap
use dockyards_flux.Base.StringMap.{Entries}
use dockyards_flux.Api.Constants.{label_cluster_name, label_workload_name, helm_release_kind}
use dockyards_flux.Api.Objects.{ObjectKey}
use dockyards_flux.Api.Errors.{ApiErrors}
use dockyards_flux.Api.Flux.{HelmRelease, Chart, WorkloadInventory, FluxVersions}
use dockyards_flux.Api.World.{World, OperationResult, stored_or, IsLawfulCreateOrPatch}
use dockyards_flux.Controllers.Inventory.{owner_reference, fill_inventory}
use dockyards_flux.Controllers.Inventory.Writing.{
  inventory_key, IsWritten, write-IsWritten, write-ne-panicked,
}
use dockyards_flux.Controllers.HelmRelease.{
  helm_release_inventory, helm_release_selector, fill_helm_release_inventory, ignore_operation,
  reconcile_helm_release_inventory,
}

labels_ne : label_cluster_name ≢ label_workload_name
labels_ne e = cc

outcome_cases :
    {S E : Type 0} (result : S × Outcome E OperationResult)
    → ((op : OperationResult) × (result ≡ (result.0, done op)))
      ⊎ ((e : E) × (result ≡ (result.0, failed e)))
      ⊎ (result ≡ (result.0, panicked))
outcome_cases (s, done op) = inl (op, refl)
outcome_cases (s, failed e) = inr (inl (e, refl))
outcome_cases (s, panicked) = inr (inr refl)

module _ {S E : Type 0} (errors : ApiErrors E) (flux : FluxVersions) (world : World S E)
    (stored : S → ObjectKey → Option WorkloadInventory)
    (lawful : IsLawfulCreateOrPatch inventory_key stored world.create_or_patch_inventory)
    (r : HelmRelease) (cluster_name workload_name : String) (s : S)
    (cluster_labelled : StringMap.lookup label_cluster_name r.labels ≡ some cluster_name)
    (workload_labelled : StringMap.lookup label_workload_name r.labels ≡ some workload_name) where
  -- The CreateOrPatch of a labelled release.
  abbrev pub operation : S × Outcome E OperationResult
  operation =
      world.create_or_patch_inventory (helm_release_inventory r)
        (fill_helm_release_inventory flux r cluster_name workload_name) s

  reconcile-operation :
      reconcile_helm_release_inventory errors flux world r s ≡ ignore_operation operation
  unfolding reconcile_helm_release_inventory
  reconcile-operation = ground (arith, cluster_labelled, workload_labelled)

  -- The inventory of a release with a chart has been written.
  abbrev pub IsHelmReleaseWritten : Chart → S → Type 0
  IsHelmReleaseWritten chart s' =
      IsWritten stored (helm_release_inventory r)
        (owner_reference flux.helm_group_version helm_release_kind r.meta) label_cluster_name
        cluster_name label_workload_name workload_name (helm_release_selector r chart) s s'

  abbrev fill : WorkloadInventory → Outcome E WorkloadInventory
  fill = fill_helm_release_inventory flux r cluster_name workload_name

  abbrev fill_chart : Chart → WorkloadInventory → Outcome E WorkloadInventory
  fill_chart chart =
      fill_inventory (owner_reference flux.helm_group_version helm_release_kind r.meta)
        (label_cluster_name, cluster_name) (label_workload_name, workload_name)
        (helm_release_selector r chart)

  fill-eq-fill_chart : (chart : Chart) → r.chart ≡ some chart → fill ≡ fill_chart chart
  unfolding fill_helm_release_inventory
  fill-eq-fill_chart chart present = fun_ext λ inventory. ground (arith, present)

  fill_without_chart : r.chart ≡ none → (inventory : WorkloadInventory) → fill inventory ≡ panicked
  unfolding fill_helm_release_inventory
  fill_without_chart absent inventory = ground (arith, absent)

  written_or_failed :
      (chart : Chart)
      → r.chart ≡ some chart
      → ((op : OperationResult) × (operation ≡ (operation.0, done op))
          × IsHelmReleaseWritten chart operation.0)
        ⊎ ((e : E) × (operation ≡ (operation.0, failed e)))
  written_or_failed chart present = elim (outcome_cases operation) [
    | inl (op, result) ↦ inl (
      op,
      result,
      write-IsWritten stored world.create_or_patch_inventory lawful _ label_cluster_name
          cluster_name label_workload_name workload_name (helm_release_selector r chart) labels_ne
          (helm_release_inventory r) s operation.0 op
          (subst
            (λ f.
              world.create_or_patch_inventory (helm_release_inventory r) f s
              ≡ (operation.0, done op))
            (fill-eq-fill_chart chart present) result),
    )
    | inr (inl (e, result)) ↦ inr (e, result)
    | inr (inr result) ↦
        let object = helm_release_inventory r in
        let fills = fill-eq-fill_chart chart present in
        absurd (
          write-ne-panicked stored world.create_or_patch_inventory lawful _ label_cluster_name
            cluster_name label_workload_name workload_name (helm_release_selector r chart) object s
            (subst (λ f. (world.create_or_patch_inventory object f s).1 ≡ panicked) fills
              (ap (λ x. x.1) result)))
  ]

  -- For a labelled release with a chart a reconciliation of its inventory returns no error, whether
  -- the inventory was written or CreateOrPatch failed: its error is dropped.
  pub reconcile_helm_release_inventory-written_or_dropped :
      (chart : Chart)
      → r.chart ≡ some chart
      → (s' : S) × (reconcile_helm_release_inventory errors flux world r s ≡ (s', done tt))
        × (IsHelmReleaseWritten chart s' ⊎ ((e : E) × (operation ≡ (s', failed e))))
  reconcile_helm_release_inventory-written_or_dropped chart present =
      elim (written_or_failed chart present) [
        | inl (op, result, written) ↦
            (operation.0, reconcile-operation ∙ ap ignore_operation result, inl written)
        | inr (e, result) ↦
            (operation.0, reconcile-operation ∙ ap ignore_operation result, inr (e, result))
      ]

  -- For a labelled release without a chart, one that has a chart reference, the inventory is never
  -- written: a reconciliation panics, unless CreateOrPatch failed, whose error is dropped.
  pub reconcile_helm_release_inventory-chart_reference :
      r.chart ≡ none
      → ((reconcile_helm_release_inventory errors flux world r s).1 ≡ panicked)
        ⊎ ((e : E) × (operation ≡ (operation.0, failed e)))
  reconcile_helm_release_inventory-chart_reference absent = elim (outcome_cases operation) [
    | inl (op, result) ↦
        let object = helm_release_inventory r in
        let (after, filled, _) = lawful.result_stored object fill s operation.0 op result in
        cc (fill_without_chart absent (stored_or object (stored s (inventory_key object))), filled)
    | inr (inl (e, result)) ↦ inr (e, result)
    | inr (inr result) ↦ inl (ap (λ x. x.1) (reconcile-operation ∙ ap ignore_operation result))
  ]
