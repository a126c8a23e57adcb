-- ===== src/Examples/History.antt =====
-- Reconciliations of several versions of objects by the inventory controllers, in a world that keeps
-- what they write.
use dockyards_flux.Base.{none, some, List, [], ◌∷◌, ◌≡◌, ◌≢◌, ◌⊎◌, refl, arith, inl, string_dec}
use dockyards_flux.Base.Outcome.{done}
use dockyards_flux.Base.StringMap
use dockyards_flux.Api.Objects.{same_key, same_key-IsKeyTest}
use dockyards_flux.Api.Flux.{Kustomization, WorkloadInventory}
use dockyards_flux.Api.World.{updated}
use dockyards_flux.Api.Constants.{label_cluster_name, label_workload_name}
use dockyards_flux.Controllers.Inventory.{fill_inventory}
use dockyards_flux.Controllers.Inventory.Writing.{inventory_key}
use dockyards_flux.Controllers.InventoryNames.{InventoryKind}
use dockyards_flux.Controllers.Sources.{
  Source, of_kustomization, of_helm_release, inventory_of, Names, reconcile_inventory,
  write_inventory,
}
use dockyards_flux.Controllers.Interleaving.{step, Run, finished, next}
use dockyards_flux.Controllers.Provenance.{Trace, start, then, IsReported}
use dockyards_flux.Controllers.Convergence.{refilled, Trace-write_inventory}
use dockyards_flux.Controllers.Kustomization.{
  reconcile_kustomization_inventory, fill_kustomization_inventory,
}
use dockyards_flux.Controllers.HelmRelease.{
  reconcile_helm_release_inventory, fill_helm_release_inventory,
}
use dockyards_flux.Controllers.Reading.{
  Request, for_kustomization, for_source_repository, KeepsInventories,
  reconcile as reconcile_request, IsRead,
}
use dockyards_flux.Controllers.Histories.{History, nothing, handled, History-IsReported}
use mathlib.Core.List.{Memᴰ}
use dockyards_flux.Examples.Setting.{api_errors, api_errors-IsLawfulErrors}
use dockyards_flux.Examples.Store.{
  Store, create_or_patch, stored, create_or_patch-IsLawful, kustomization, helm_release, flux,
}
use dockyards_flux.Examples.Controllers.{inventories, none_stored, kustomization_key}

-- The kustomization as it was, with a label more, for another cluster.
abbrev earlier : Kustomization
earlier = record kustomization {
  meta = record kustomization.meta {
    labels =
        some ((label_workload_name, "web") ∷ (label_cluster_name, "test") ∷ ("stage", "one") ∷ []);
  };
}

abbrev reconcile : Source → Store WorkloadInventory → Store WorkloadInventory
reconcile x s = (reconcile_inventory api_errors flux inventories x s).0

abbrev versions : List Source
versions = of_helm_release helm_release ∷ of_kustomization earlier ∷ []

abbrev IsVersion : Source → Store WorkloadInventory → Type 0
IsVersion x s = Memᴰ x versions

abbrev before : Store WorkloadInventory
before = reconcile (of_helm_release helm_release) (reconcile (of_kustomization earlier) none_stored)

-- The earlier version of the kustomization, and then a Helm release of the same name.
before-Trace :
    Trace api_errors flux inventories
      (stored same_key inventory_key)
      (create_or_patch-IsLawful same_key inventory_key same_key-IsKeyTest)
      IsVersion
      none_stored
      before
before-Trace =
    then (of_helm_release helm_release) none_stored
      (reconcile (of_kustomization earlier) none_stored) before (Memᴰ.head refl)
      (then (of_kustomization earlier) none_stored none_stored
        (reconcile (of_kustomization earlier) none_stored) (Memᴰ.tail (Memᴰ.head refl))
        (start none_stored) refl)
      refl

inventories-KeepsInventories : KeepsInventories inventories (stored same_key inventory_key)
inventories-KeepsInventories x y s k = refl

abbrev handle : Request → Store WorkloadInventory → Store WorkloadInventory
handle request s =
    (reconcile_request api_errors flux inventories (stored same_key inventory_key)
      (create_or_patch-IsLawful same_key inventory_key same_key-IsKeyTest)
      inventories-KeepsInventories api_errors-IsLawfulErrors request s).0

abbrev handled_both : Store WorkloadInventory
handled_both =
    handle (for_kustomization kustomization_key)
      (handle (for_source_repository kustomization_key) none_stored)

-- A request for the repositories, and then one for the kustomization.
both-History :
    History api_errors flux inventories
      (stored same_key inventory_key)
      (create_or_patch-IsLawful same_key inventory_key same_key-IsKeyTest)
      inventories-KeepsInventories
      api_errors-IsLawfulErrors
      none_stored
      handled_both
both-History =
    handled (for_kustomization kustomization_key) none_stored
      (handle (for_source_repository kustomization_key) none_stored) handled_both
      (handled (for_source_repository kustomization_key) none_stored none_stored
        (handle (for_source_repository kustomization_key) none_stored) (nothing none_stored) refl)
      refl

History-IsReported_example :
    (handled_both (inventory_of InventoryKind.kustomization kustomization_key) ≡ none)
    ⊎ IsReported api_errors flux inventories
        (stored same_key inventory_key)
        (create_or_patch-IsLawful same_key inventory_key same_key-IsKeyTest)
        (IsRead api_errors flux inventories
          (stored same_key inventory_key)
          (create_or_patch-IsLawful same_key inventory_key same_key-IsKeyTest)
          inventories-KeepsInventories
          api_errors-IsLawfulErrors)
        none_stored
        InventoryKind.kustomization
        kustomization_key
        (handled_both (inventory_of InventoryKind.kustomization kustomization_key))
History-IsReported_example =
    History-IsReported api_errors flux inventories (stored same_key inventory_key)
      (create_or_patch-IsLawful same_key inventory_key same_key-IsKeyTest)
      inventories-KeepsInventories api_errors-IsLawfulErrors none_stored handled_both
      InventoryKind.kustomization kustomization_key both-History

abbrev after : Store WorkloadInventory
after = reconcile (of_kustomization kustomization) before

kinds_ne : InventoryKind.kustomization ≢ InventoryKind.helm_release
kinds_ne e = ground (arith, e)

-- The Helm release once more.
after-Run :
    Run api_errors flux inventories
      (stored same_key inventory_key)
      (create_or_patch-IsLawful same_key inventory_key same_key-IsKeyTest)
      InventoryKind.kustomization
      kustomization_key
      after
      (reconcile (of_helm_release helm_release) after)
after-Run =
    next InventoryKind.helm_release kustomization_key after _ _ (inl kinds_ne)
      (step (of_helm_release helm_release) InventoryKind.helm_release kustomization_key after
        (reconcile (of_helm_release helm_release) after) refl refl refl)
      (finished (reconcile (of_helm_release helm_release) after))

kustomization-Names : Names (of_kustomization kustomization) "app" "prod"
unfolding StringMap.lookup string_dec
kustomization-Names = (refl, refl)

kustomization_written :
    (write_inventory api_errors flux inventories
      (of_kustomization kustomization)
      "app"
      "prod"
      before).1
    ≡ done updated
unfolding reconcile_kustomization_inventory reconcile_helm_release_inventory
    fill_kustomization_inventory fill_inventory fill_helm_release_inventory create_or_patch
    StringMap.set StringMap.lookup StringMap.make_if_nil string_dec
kustomization_written = refl

Trace-write_inventory_example :
    (found : WorkloadInventory) × (refilled api_errors flux inventories
        (stored same_key inventory_key)
        (create_or_patch-IsLawful same_key inventory_key same_key-IsKeyTest)
        (of_kustomization kustomization)
        "app"
        "prod"
        none_stored
      ≡ done found)
    × (reconcile
          (of_helm_release helm_release)
          after
          (inventory_of InventoryKind.kustomization kustomization_key)
        ≡ some found)
Trace-write_inventory_example =
    Trace-write_inventory api_errors flux inventories (stored same_key inventory_key)
      (create_or_patch-IsLawful same_key inventory_key same_key-IsKeyTest)
      (of_kustomization kustomization) "app" "prod" IsVersion none_stored before
      (reconcile (of_helm_release helm_release) after) updated before-Trace kustomization-Names
      kustomization_written after-Run
