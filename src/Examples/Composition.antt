-- ===== src/Examples/Composition.antt =====
-- The workload controller and the inventory controllers one after the other, in worlds that keep what
-- they write.
use dockyards_flux.Base.{some, List, [], ◌∷◌, ◌≡◌, ◌≢◌, refl, arith, inl, string_dec}
use dockyards_flux.Base.Outcome.{done}
use dockyards_flux.Base.StringMap
use dockyards_flux.Base.View.{View}
use dockyards_flux.Api.Objects.{same_key, same_key-IsKeyTest}
use dockyards_flux.Api.Flux.{Kustomization, WorkloadInventory}
use dockyards_flux.Api.Rendering.{
  Unstructured, ResourceKey, resource_key, same_resource, same_resource-IsKeyTest, SetsSpec,
}
use dockyards_flux.Controllers.Inventory.{fill_inventory}
use dockyards_flux.Controllers.Inventory.Writing.{inventory_key}
use dockyards_flux.Controllers.InventoryNames.{InventoryKind}
use dockyards_flux.Controllers.Sources.{of_helm_release, inventory_of}
use dockyards_flux.Controllers.Interleaving.{step, Run, finished, next, Run-frame}
use dockyards_flux.Controllers.Kustomization.{
  reconcile_kustomization_inventory, fill_kustomization_inventory,
}
use dockyards_flux.Controllers.HelmRelease.{reconcile_helm_release_inventory}
use dockyards_flux.Controllers.Workload.{reconciled, apply_fields, set_metadata, fill_object}
use dockyards_flux.Controllers.Workload.Again.{apply_fields_idempotent}
use dockyards_flux.Examples.Setting.{Template, with_input, api_errors, group_versions, cue, prod}
use dockyards_flux.Examples.Store.{
  Store, create_or_patch, stored, create_or_patch-IsLawful, kustomization, helm_release, flux,
}
use dockyards_flux.Examples.Controllers.{inventories, none_stored, kustomization_key}
use dockyards_flux.Examples.Rendering.{
  rendering, conditions, workload_world, no_resources, rendered_object,
}
use dockyards_flux.Examples.Webhook.{good}

rendering-SetsSpec : SetsSpec rendering
rendering-SetsSpec nested u u' e = ground arith

-- Two values for the same object.
abbrev values : List Template
values = with_input ∷ with_input ∷ []

abbrev apply : View ResourceKey Unstructured → View ResourceKey Unstructured
apply s =
    (apply_fields api_errors group_versions conditions cue rendering workload_world good
      (prod "prod") values s).0

once :
    apply_fields api_errors group_versions conditions cue rendering workload_world good
      (prod "prod")
      values
      no_resources
    ≡ (apply no_resources, done reconciled)
unfolding apply_fields fill_object create_or_patch string_dec
once = refl

twice :
    apply_fields api_errors group_versions conditions cue rendering workload_world good
      (prod "prod")
      values
      (apply no_resources)
    ≡ (apply (apply no_resources), done reconciled)
unfolding apply_fields fill_object create_or_patch string_dec
twice = refl

apply_fields_idempotent_example : apply (apply no_resources) ≡ apply no_resources
apply_fields_idempotent_example =
    apply_fields_idempotent api_errors group_versions conditions cue rendering workload_world good
      (prod "prod") (stored same_resource resource_key)
      (create_or_patch-IsLawful same_resource resource_key same_resource-IsKeyTest)
      rendering-SetsSpec values no_resources (apply no_resources) (apply (apply no_resources)) once
      twice

abbrev rendered_kustomization : Kustomization
rendered_kustomization = record kustomization {
  meta = (set_metadata group_versions good (prod "prod") rendered_object).meta;
}

abbrev after_kustomization : Store WorkloadInventory
after_kustomization =
    (reconcile_kustomization_inventory api_errors flux inventories rendered_kustomization
      none_stored).0

abbrev after_helm_release : Store WorkloadInventory
after_helm_release =
    (reconcile_helm_release_inventory api_errors flux inventories helm_release
      after_kustomization).0

reported :
    reconcile_kustomization_inventory api_errors flux inventories rendered_kustomization none_stored
    ≡ (after_kustomization, done tt)
unfolding reconcile_kustomization_inventory fill_kustomization_inventory fill_inventory
    create_or_patch StringMap.set StringMap.lookup StringMap.make_if_nil string_dec
reported = refl

kinds_ne : InventoryKind.kustomization ≢ InventoryKind.helm_release
kinds_ne e = ground (arith, e)

-- A Helm release of the same name is reconciled after the kustomization.
helm_release-Run :
    Run api_errors flux inventories
      (stored same_key inventory_key)
      (create_or_patch-IsLawful same_key inventory_key same_key-IsKeyTest)
      InventoryKind.kustomization
      kustomization_key
      after_kustomization
      after_helm_release
helm_release-Run =
    next InventoryKind.helm_release kustomization_key after_kustomization after_helm_release
      after_helm_release (inl kinds_ne)
      (step (of_helm_release helm_release) InventoryKind.helm_release kustomization_key
        after_kustomization after_helm_release refl refl refl)
      (finished after_helm_release)

Run-frame_example :
    after_helm_release (inventory_of InventoryKind.kustomization kustomization_key)
    ≡ after_kustomization (inventory_of InventoryKind.kustomization kustomization_key)
Run-frame_example =
    Run-frame api_errors flux inventories (stored same_key inventory_key)
      (create_or_patch-IsLawful same_key inventory_key same_key-IsKeyTest)
      InventoryKind.kustomization kustomization_key after_kustomization after_helm_release
      helm_release-Run

-- The kustomization is what is read where the object was rendered.
read_rendered :
    (x : Unstructured)
    → apply no_resources (resource_key rendered_object) ≡ some x
    → rendered_kustomization.meta ≡ x.meta
unfolding apply_fields fill_object create_or_patch string_dec
read_rendered x e = ground (arith, e)
