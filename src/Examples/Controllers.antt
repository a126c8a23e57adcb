-- ===== src/Examples/Controllers.antt =====
-- The inventory controllers and the worktree controller in a world that keeps what they write.
use dockyards_flux.Base.{none, some, [], ◌∷◌, ◌≡◌, ◌≢◌, ◌⊎◌, refl, arith, string_dec, Option}
use dockyards_flux.Base.Outcome.{Outcome, done, failed, panicked}
use dockyards_flux.Base.StringMap
use dockyards_flux.Api.Constants.{label_cluster_name, label_workload_name}
use dockyards_flux.Api.Objects.{same_key, same_key-IsKeyTest, ObjectKey}
use dockyards_flux.Api.Flux.{WorkloadInventory, HelmRelease, GitRepository}
use dockyards_flux.Api.World.{World}
use dockyards_flux.Controllers.Inventory.{owner_reference, fill_inventory, new_inventory}
use dockyards_flux.Controllers.Inventory.Writing.{inventory_key}
use dockyards_flux.Controllers.Kustomization.{
  reconcile_kustomization_inventory, fill_kustomization_inventory, reconcile_delete,
  reconcile_kustomization, reconcile_with_helper, patch_deferred,
}
use dockyards_flux.Controllers.Kustomization.Deletion.{
  unpruned, IsUnreachable, FailsWith, IsReachable, reconcile_delete_cases,
}
use dockyards_flux.Controllers.Kustomization.Patching.{
  IsDeletedAndPatched, IsReportedAndPatched, KeepsErrors, reconcile_kustomization-done,
}
use dockyards_flux.Controllers.HelmRelease.{reconcile_helm_release_inventory}
use dockyards_flux.Controllers.HelmRelease.Mirroring.{
  operation, IsHelmReleaseWritten, reconcile_helm_release_inventory-written_or_dropped,
  reconcile_helm_release_inventory-chart_reference,
}
use dockyards_flux.Controllers.Worktree.Mirroring.{repository_key}
use dockyards_flux.Examples.Setting.{Error, api_errors, api_errors-IsLawfulErrors, object}
use dockyards_flux.Examples.Store.{
  Store, create_or_patch, stored, create_or_patch-IsLawful, world, kustomization, worktree, flux,
  refuse, helm_release, first_error,
}

abbrev pub inventories : World (Store WorkloadInventory) Error
inventories = world (create_or_patch same_key inventory_key) refuse

abbrev pub repositories : World (Store GitRepository) Error
repositories = world refuse (create_or_patch same_key repository_key)

abbrev pub none_stored : {A : Type 0} → Store A
none_stored key = none

abbrev blank : WorkloadInventory
blank = new_inventory "app" "team"

labels_ne : label_workload_name ≢ label_cluster_name
labels_ne e = cc

-- What one call of the callback makes of an inventory without labels.
abbrev filled : WorkloadInventory
filled = record blank {
  meta = record blank.meta {
    owner_references = owner_reference "v2" "HelmRelease" (object "team" "app") ∷ [];
    labels = some ((label_workload_name, "app") ∷ (label_cluster_name, "prod") ∷ []);
  };
  selector = record { match_labels = ("name", "app") ∷ []; match_expressions = [] };
}

abbrev fill : WorkloadInventory → Outcome Error WorkloadInventory
fill =
    fill_inventory (owner_reference "v2" "HelmRelease" (object "team" "app"))
      (label_workload_name, "app") (label_cluster_name, "prod") (("name", "app") ∷ [])

fill_run : fill blank ≡ done filled
unfolding fill_inventory StringMap.set StringMap.lookup StringMap.make_if_nil string_dec
fill_run = refl

reconcile_delete_cases_example :
    (IsUnreachable api_errors flux inventories kustomization none_stored
      × (reconcile_delete api_errors flux inventories kustomization none_stored
          ≡ (unpruned kustomization, none)))
    ⊎ ((e : Error) × FailsWith api_errors flux inventories kustomization none_stored e
        × (reconcile_delete api_errors flux inventories kustomization none_stored
            ≡ (kustomization, some e)))
    ⊎ (IsReachable api_errors flux inventories kustomization none_stored
        × (reconcile_delete api_errors flux inventories kustomization none_stored
            ≡ (kustomization, none)))
reconcile_delete_cases_example =
    reconcile_delete_cases api_errors flux inventories api_errors-IsLawfulErrors kustomization
      none_stored

kustomization_run :
    reconcile_kustomization_inventory api_errors flux inventories kustomization none_stored ≡ (
      (reconcile_kustomization_inventory api_errors flux inventories kustomization none_stored).0,
      done tt,
    )
unfolding reconcile_kustomization_inventory fill_kustomization_inventory fill_inventory
    create_or_patch StringMap.set StringMap.lookup StringMap.make_if_nil string_dec
kustomization_run = refl

abbrev pub kustomization_key : ObjectKey
kustomization_key = record { namespace = "team"; name = "app" }

abbrev referring : HelmRelease
referring = record helm_release { chart = none }

cluster_labelled : StringMap.lookup label_cluster_name helm_release.labels ≡ some "prod"
unfolding StringMap.lookup string_dec
cluster_labelled = refl

workload_labelled : StringMap.lookup label_workload_name helm_release.labels ≡ some "app"
unfolding StringMap.lookup string_dec
workload_labelled = refl

pub has_commit : worktree.commit_hash ≢ none
has_commit e = ground arith

pub first_error-KeepsErrors : KeepsErrors first_error
first_error-KeepsErrors none cause e = ground arith
first_error-KeepsErrors (some first) cause e = ground arith

reconciled : reconcile_kustomization api_errors flux inventories kustomization_key none_stored ≡ (
  (reconcile_kustomization api_errors flux inventories kustomization_key none_stored).0,
  done tt,
)
unfolding reconcile_kustomization reconcile_with_helper patch_deferred
    reconcile_kustomization_inventory fill_kustomization_inventory fill_inventory create_or_patch
    StringMap.set StringMap.lookup StringMap.make_if_nil string_dec
reconciled = refl

reconcile_kustomization-done_example :
    let s' =
      (reconcile_kustomization api_errors flux inventories kustomization_key none_stored).0 in
    ((◌≢◌ {A = Option Error} none none)
      × (api_errors.ignore_not_found none ≡ none)
      × (s' ≡ none_stored))
    ⊎ ((◌≡◌ {A = Option Error} none none)
        × (inventories.new_kustomization_helper kustomization none_stored ≡ none)
        × (IsDeletedAndPatched api_errors flux inventories
              (stored same_key inventory_key)
              (create_or_patch-IsLawful same_key inventory_key same_key-IsKeyTest)
              api_errors-IsLawfulErrors
              kustomization
              none_stored
              s'
            ⊎ IsReportedAndPatched api_errors flux inventories
                (stored same_key inventory_key)
                (create_or_patch-IsLawful same_key inventory_key same_key-IsKeyTest)
                api_errors-IsLawfulErrors
                kustomization
                none_stored
                s'))
reconcile_kustomization-done_example =
    reconcile_kustomization-done api_errors flux inventories (stored same_key inventory_key)
      (create_or_patch-IsLawful same_key inventory_key same_key-IsKeyTest) api_errors-IsLawfulErrors
      first_error-KeepsErrors kustomization_key none_stored
      (reconcile_kustomization api_errors flux inventories kustomization_key none_stored).0
      reconciled

reconcile_helm_release_inventory-written_or_dropped_example :
    (s' : Store WorkloadInventory) × (reconcile_helm_release_inventory api_errors flux inventories
        helm_release none_stored
      ≡ (s', done tt))
    × (IsHelmReleaseWritten api_errors flux inventories
          (stored same_key inventory_key)
          (create_or_patch-IsLawful same_key inventory_key same_key-IsKeyTest)
          helm_release
          "prod"
          "app"
          none_stored
          cluster_labelled
          workload_labelled
          (record { chart = "nginx"; version = "1.2.3" })
          s'
        ⊎ ((e : Error) × (operation api_errors flux inventories
                (stored same_key inventory_key)
                (create_or_patch-IsLawful same_key inventory_key same_key-IsKeyTest)
                helm_release
                "prod"
                "app"
                none_stored
                cluster_labelled
                workload_labelled
              ≡ (s', failed e))))
reconcile_helm_release_inventory-written_or_dropped_example =
    reconcile_helm_release_inventory-written_or_dropped api_errors flux inventories
      (stored same_key inventory_key)
      (create_or_patch-IsLawful same_key inventory_key same_key-IsKeyTest) helm_release "prod" "app"
      none_stored cluster_labelled workload_labelled (record { chart = "nginx"; version = "1.2.3" })
      refl

reconcile_helm_release_inventory-chart_reference_example :
    ((reconcile_helm_release_inventory api_errors flux inventories referring none_stored).1
      ≡ panicked)
    ⊎ ((e : Error) × (operation api_errors flux inventories
            (stored same_key inventory_key)
            (create_or_patch-IsLawful same_key inventory_key same_key-IsKeyTest)
            referring
            "prod"
            "app"
            none_stored
            cluster_labelled
            workload_labelled
          ≡ (
            (operation api_errors flux inventories
                (stored same_key inventory_key)
                (create_or_patch-IsLawful same_key inventory_key same_key-IsKeyTest)
                referring
                "prod"
                "app"
                none_stored
                cluster_labelled
                workload_labelled).0,
            failed e,
          )))
reconcile_helm_release_inventory-chart_reference_example =
    reconcile_helm_release_inventory-chart_reference api_errors flux inventories
      (stored same_key inventory_key)
      (create_or_patch-IsLawful same_key inventory_key same_key-IsKeyTest) referring "prod" "app"
      none_stored cluster_labelled workload_labelled refl
