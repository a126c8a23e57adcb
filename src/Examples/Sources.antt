-- ===== src/Examples/Sources.antt =====
-- The source repository controller and the worktree controller in a world that keeps what they write.
use dockyards_flux.Base.{none, some, ◌≡◌, ◌≢◌, inr, refl, string_dec}
use dockyards_flux.Base.Outcome.{done}
use dockyards_flux.Base.StringMap
use dockyards_flux.Api.Constants.{helm_repository_kind, oci_repository_kind}
use dockyards_flux.Api.Objects.{same_key, same_key-IsKeyTest, ObjectKey}
use dockyards_flux.Api.Flux.{WorkloadInventory, GitRepository}
use dockyards_flux.Api.World.{object_key}
use dockyards_flux.Controllers.Inventory.{fill_inventory}
use dockyards_flux.Controllers.Inventory.Writing.{inventory_key}
use dockyards_flux.Controllers.Worktree.{fill_git_repository, reconcile_git_repository}
use dockyards_flux.Controllers.Worktree.Mirroring.{
  repository_key, IsPublished, reconcile_git_repository-IsPublished,
}
use dockyards_flux.Controllers.SourceRepository.{
  reconcile_source_repository, reconcile_helm_repository, reconcile_oci_repository,
  reconcile_helm_repository_inventory, reconcile_oci_repository_inventory,
  fill_helm_repository_inventory, fill_oci_repository_inventory, helm_repository_inventory,
  oci_repository_inventory,
}
use dockyards_flux.Controllers.SourceRepository.Mirroring.{
  IsHandled, reconcile_source_repository-IsHandled,
}
use dockyards_flux.Examples.Setting.{api_errors, api_errors-IsLawfulErrors, group_versions}
use dockyards_flux.Examples.Store.{
  Store, create_or_patch, stored, create_or_patch-IsLawful, repository, worktree, flux,
}
use dockyards_flux.Examples.Controllers.{
  inventories, repositories, none_stored, kustomization_key, has_commit,
}

source_run :
    reconcile_source_repository api_errors flux inventories kustomization_key none_stored ≡ (
      (reconcile_source_repository api_errors flux inventories kustomization_key none_stored).0,
      done tt,
    )
unfolding reconcile_source_repository reconcile_helm_repository reconcile_oci_repository
    reconcile_helm_repository_inventory reconcile_oci_repository_inventory
    fill_helm_repository_inventory fill_oci_repository_inventory fill_inventory create_or_patch
    StringMap.set StringMap.lookup StringMap.make_if_nil string_dec
source_run = refl

reconcile_source_repository-IsHandled_example :
    (mid : Store WorkloadInventory) × IsHandled api_errors flux inventories
      (stored same_key inventory_key)
      (create_or_patch-IsLawful same_key inventory_key same_key-IsKeyTest)
      helm_repository_inventory
      helm_repository_kind
      (repository "charts", none)
      none_stored
      mid
    × IsHandled api_errors flux inventories
        (stored same_key inventory_key)
        (create_or_patch-IsLawful same_key inventory_key same_key-IsKeyTest)
        oci_repository_inventory
        oci_repository_kind
        (repository "images", none)
        mid
        (reconcile_source_repository api_errors flux inventories kustomization_key none_stored).0
reconcile_source_repository-IsHandled_example =
    reconcile_source_repository-IsHandled api_errors flux inventories
      (stored same_key inventory_key)
      (create_or_patch-IsLawful same_key inventory_key same_key-IsKeyTest) api_errors-IsLawfulErrors
      kustomization_key none_stored
      (reconcile_source_repository api_errors flux inventories kustomization_key none_stored).0
      source_run

worktree_run :
    reconcile_git_repository api_errors group_versions repositories worktree none_stored ≡ (
      (reconcile_git_repository api_errors group_versions repositories worktree none_stored).0,
      done tt,
    )
unfolding reconcile_git_repository fill_git_repository create_or_patch
worktree_run = refl

reconcile_git_repository-IsPublished_example :
    let s' =
      (reconcile_git_repository api_errors group_versions repositories worktree none_stored).0 in
    (after : GitRepository) × (stored same_key repository_key s' (object_key worktree.meta)
      ≡ some after)
    × IsPublished group_versions worktree "https://git/app" after
    × ((other : ObjectKey)
        → other ≢ object_key worktree.meta
        → stored same_key repository_key s' other
          ≡ stored same_key repository_key none_stored other)
reconcile_git_repository-IsPublished_example =
    reconcile_git_repository-IsPublished api_errors group_versions repositories
      (stored same_key repository_key)
      (create_or_patch-IsLawful same_key repository_key same_key-IsKeyTest) worktree
      "https://git/app" none_stored
      (reconcile_git_repository api_errors group_versions repositories worktree none_stored).0 refl
      (inr has_commit) worktree_run
