-- ===== src/Api/World.antt =====
-- The cluster that the controllers act on: `S` is its state, and the calls of controller-runtime
-- that change it return the next one.
use dockyards_flux.Base.{Option, none, some, ◌≡◌, ◌≢◌, ◌⊎◌, List}
use dockyards_flux.Base.Outcome.{Outcome, done, panicked}
use dockyards_flux.Api.Objects.{ObjectKey, ObjectMeta}
use dockyards_flux.Api.Flux.{
  WorkloadInventory, Kustomization, HelmRelease, Repository, Worktree, GitRepository,
}

pub data OperationResult : Type 0 where
  unchanged created updated : OperationResult

-- controllerutil.CreateOrPatch for one type of objects: the object, of which the name and the
-- namespace matter, and the callback that changes it.
abbrev pub CreateOrPatch : (S E A : Type 0) → Type 0
CreateOrPatch S E A = A → (A → Outcome E A) → S → S × Outcome E OperationResult

-- client.ObjectKeyFromObject
abbrev pub object_key : ObjectMeta → ObjectKey
object_key meta = record { namespace = meta.namespace; name = meta.name }

-- The object that a callback is given: the stored one, or, if there is none, the one of the call.
abbrev pub stored_or : {A : Type 0} → A → Option A → A
stored_or object none = object
stored_or object (some found) = found

-- What CreateOrPatch documents, for a view `stored` of the objects in the cluster: where it returns
-- no error, the callback has been called on the stored object, or on the new one, without error, and
-- its result is stored; whatever it returns, the object is as before or the result of the callback, and
-- other objects are left alone; and it panics only if the callback does. `K` is what tells the objects
-- apart.
pub record IsLawfulCreateOrPatch {S E A K : Type 0} (key : A → K) (stored : S → K → Option A)
    (create_or_patch : CreateOrPatch S E A) : Type 0 where
  pub result_stored :
      (object : A) (f : A → Outcome E A) (s s' : S) (op : OperationResult)
      → create_or_patch object f s ≡ (s', done op)
      → (after : A) × (f (stored_or object (stored s (key object))) ≡ done after)
        × (stored s' (key object) ≡ some after)
  pub kept_or_set :
      (object : A) (f : A → Outcome E A) (s : S)
      → (stored (create_or_patch object f s).0 (key object) ≡ stored s (key object))
        ⊎ ((after : A) × (f (stored_or object (stored s (key object))) ≡ done after)
            × (stored (create_or_patch object f s).0 (key object) ≡ some after))
  pub others_kept :
      (object : A) (f : A → Outcome E A) (s : S) (other : K)
      → other ≢ key object
      → stored (create_or_patch object f s).0 other ≡ stored s other
  pub panics :
      (object : A) (f : A → Outcome E A) (s : S)
      → (create_or_patch object f s).1 ≡ panicked
      → f (stored_or object (stored s (key object))) ≡ panicked

-- The calls of the inventory controllers and of the worktree controller.
pub record World (S E : Type 0) : Type 0 where
  pub get_kustomization : ObjectKey → S → Kustomization × Option E
  pub get_helm_release : ObjectKey → S → HelmRelease × Option E
  pub get_helm_repository : ObjectKey → S → Repository × Option E
  pub get_oci_repository : ObjectKey → S → Repository × Option E
  pub get_worktree : ObjectKey → S → Worktree × Option E
  -- the error of a Get of a secret; its data is not used
  pub get_secret : ObjectKey → S → Option E
  pub create_or_patch_inventory : CreateOrPatch S E WorkloadInventory
  pub create_or_patch_git_repository : CreateOrPatch S E GitRepository
  -- patch.NewHelper, and Patch of its helper from the object that it was made for to another
  pub new_kustomization_helper : Kustomization → S → Option E
  pub patch_kustomization : Kustomization → Kustomization → S → S × Option E
  -- kerrors.NewAggregate
  pub new_aggregate : List (Option E) → Option E
