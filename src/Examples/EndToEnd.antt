-- ===== src/Examples/EndToEnd.antt =====
-- A workload that renders a Helm release, and the inventory of that.
use dockyards_flux.Base.{some, ◌≡◌, ◌≢◌, refl, arith, ap, string_dec}
use dockyards_flux.Base.Outcome.{done}
use dockyards_flux.Base.StringMap
use dockyards_flux.Api.Constants.{helm_release_kind, workload_kind}
use dockyards_flux.Api.Objects.{same_key, same_key-IsKeyTest}
use dockyards_flux.Api.World.{updated}
use dockyards_flux.Api.Flux.{HelmRelease, WorkloadInventory}
use dockyards_flux.Api.Rendering.{
  Unstructured, resource_key, same_resource, same_resource-IsKeyTest,
}
use dockyards_flux.Controllers.Inventory.{fill_inventory}
use dockyards_flux.Controllers.Inventory.Writing.{inventory_key}
use dockyards_flux.Controllers.Sources.{
  of_helm_release, source_kind, source_key, inventory_of, IsReport, reconcile_inventory,
  write_inventory,
}
use dockyards_flux.Controllers.HelmRelease.{fill_helm_release_inventory}
use dockyards_flux.Controllers.Interleaving.{finished}
use dockyards_flux.Controllers.EndToEnd.{reconcile_workload-IsReport}
use dockyards_flux.Controllers.Workload.{
  reconcile_workload_template, apply_fields, apply_template, build_template, fill_template,
  fill_object, render, render_reference, set_metadata,
}
use dockyards_flux.Controllers.Workload.Reconciling.{
  reconcile_workload, reconcile_steps, finish_workload, reconcile_progress,
}
use dockyards_flux.Examples.Setting.{
  api_errors, api_errors-IsLawfulErrors, group_versions, cue, prod, with_input,
}
use dockyards_flux.Examples.Store.{
  Store, create_or_patch, stored, create_or_patch-IsLawful, helm_release, flux,
}
use dockyards_flux.Examples.Controllers.{inventories, none_stored}
use dockyards_flux.Examples.Rendering.{
  rendering, conditions, workload_world, rendered_object, no_resources,
}
use dockyards_flux.Examples.Objects.{
  rendering-SetsSpec, workload_world-PatchesOnly, workload_key, reconcile, render_good,
  good-IsReconciled,
}
use dockyards_flux.Examples.Webhook.{good}
use mathlib.Core.List.{Memᴰ}

abbrev release : HelmRelease
release = record helm_release {
  meta = (set_metadata group_versions good (prod "prod") rendered_object).meta;
}

nothing_rendered :
    create_or_patch same_resource resource_key rendered_object
      (fill_object group_versions cue rendering good (prod "prod") with_input)
      no_resources
    ≡ (render_good no_resources, done updated)
unfolding reconcile_workload_template render_reference render apply_template apply_fields
    build_template fill_template fill_object create_or_patch string_dec
nothing_rendered = refl

helm_release_ne_workload : helm_release_kind ≢ workload_kind
helm_release_ne_workload e = cc

read_release :
    (y : Unstructured)
    → reconcile no_resources (resource_key rendered_object) ≡ some y
    → release.meta ≡ y.meta
unfolding reconcile_workload reconcile_steps finish_workload reconcile_progress
    reconcile_workload_template render_reference render apply_template apply_fields build_template
    fill_template fill_object create_or_patch string_dec
read_release y e = ground (arith, e)

release_written :
    (write_inventory api_errors flux inventories
      (of_helm_release release)
      good.name
      "prod"
      none_stored).1
    ≡ done updated
unfolding fill_helm_release_inventory fill_inventory create_or_patch StringMap.set StringMap.lookup
    StringMap.make_if_nil string_dec
release_written = refl

abbrev reported : Store WorkloadInventory
reported = (reconcile_inventory api_errors flux inventories (of_helm_release release) none_stored).0

reconcile_workload-IsReport_example :
    (inventory : WorkloadInventory) × (reported (
        inventory_of (source_kind (of_helm_release release)) (source_key (of_helm_release release)))
      ≡ some inventory)
    × IsReport flux (of_helm_release release) good.name "prod" inventory
reconcile_workload-IsReport_example =
    reconcile_workload-IsReport api_errors group_versions conditions cue rendering workload_world
      (stored same_resource resource_key)
      (create_or_patch-IsLawful same_resource resource_key same_resource-IsKeyTest)
      rendering-SetsSpec workload_world-PatchesOnly api_errors-IsLawfulErrors flux inventories
      (stored same_key inventory_key)
      (create_or_patch-IsLawful same_key inventory_key same_key-IsKeyTest) workload_key no_resources
      (render_good no_resources) refl refl (good-IsReconciled no_resources updated nothing_rendered)
      with_input rendered_object (Memᴰ.head refl) refl
      (λ e. helm_release_ne_workload (ap (λ k. k.kind) e)) (of_helm_release release) read_release
      none_stored reported updated release_written (finished reported)
