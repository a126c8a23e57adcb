-- ===== src/Examples/Store.antt =====
-- A client that keeps the objects of one type in a function from their keys, and the world of the
-- controllers' examples around it.
use dockyards_flux.Base.{
  ◌⊎◌, inl, inr, String, Bool, true, Option, none, some, List, [], ◌∷◌, ◌≡◌, ◌≢◌, refl, arith, ◌==◌,
  if◌then◌else◌, ap, ◌∙◌, List,
}
use dockyards_flux.Base.View.{View, IsKeyTest, put, put_self, put-other}
use dockyards_flux.Base.Outcome.{Outcome, done, failed, panicked}
use dockyards_flux.Api.Constants.{label_cluster_name, label_workload_name}
use dockyards_flux.Api.Objects.{ObjectKey, ObjectMeta}
use dockyards_flux.Api.Flux.{
  WorkloadInventory, Kustomization, HelmRelease, Repository, Worktree, GitRepository, FluxVersions,
}
use dockyards_flux.Api.World.{
  OperationResult, updated, CreateOrPatch, stored_or, IsLawfulCreateOrPatch, World,
}
use dockyards_flux.Examples.Setting.{Error, missing, broken, object}

abbrev pub Store : Type 0 → Type 0
Store A = View ObjectKey A

-- It is told apart by any kind of keys that can be tested.
module _ {A K : Type 0} (same : K → K → Bool) (key : A → K) where
  abbrev pub finish : A → View K A → Outcome Error A → View K A × Outcome Error OperationResult
  finish object s (done after) = (put same (key object) after s, done updated)
  finish object s (failed e) = (s, failed e)
  finish object s panicked = (s, panicked)

  unfoldable pub create_or_patch : CreateOrPatch (View K A) Error A
  create_or_patch object f s = finish object s (f (stored_or object (s (key object))))

  abbrev pub stored : View K A → K → Option A
  stored s k = s k

  finish-done :
      (object : A) (s s' : View K A) (op : OperationResult) (o : Outcome Error A)
      → finish object s o ≡ (s', done op)
      → (after : A) × (o ≡ done after) × (s' ≡ put same (key object) after s)
  finish-done object s s' op (done after) e = (after, refl, cc)
  finish-done object s s' op (failed x) e = ground arith
  finish-done object s s' op panicked e = ground arith

  finish-panicked :
      (object : A) (s : View K A) (o : Outcome Error A)
      → (finish object s o).1 ≡ panicked
      → o ≡ panicked
  finish-panicked object s (done after) e = ground arith
  finish-panicked object s (failed x) e = ground arith
  finish-panicked object s panicked e = refl

  finish_kept_or_set :
      IsKeyTest same
      → (object : A) (s : View K A) (o : Outcome Error A)
      → (stored (finish object s o).0 (key object) ≡ stored s (key object))
        ⊎ ((after : A) × (o ≡ done after)
            × (stored (finish object s o).0 (key object) ≡ some after))
  finish_kept_or_set test object s (done after) =
      inr (after, refl, put_self same test (key object) after s)
  finish_kept_or_set test object s (failed e) = inl refl
  finish_kept_or_set test object s panicked = inl refl

  finish-other :
      IsKeyTest same
      → (object : A) (s : View K A) (other : K) (o : Outcome Error A) → other ≢ key object
      → stored (finish object s o).0 other ≡ stored s other
  finish-other test object s other (done after) ne =
      put-other same test (key object) other after s ne
  finish-other test object s other (failed e) ne = refl
  finish-other test object s other panicked ne = refl

  pub create_or_patch-IsLawful : IsKeyTest same → IsLawfulCreateOrPatch key stored create_or_patch
  unfolding create_or_patch
  create_or_patch-IsLawful test = record {
    result_stored = λ object f s s' op e.
        let (after, filled, same_store) =
          finish-done object s s' op (f (stored_or object (s (key object)))) e in
        (
          after,
          filled,
          ap (λ t. t (key object)) same_store ∙ put_self same test (key object) after s,
        );
    kept_or_set =
        λ object f s. finish_kept_or_set test object s (f (stored_or object (s (key object))));
    others_kept = λ object f s other ne.
        finish-other test object s other (f (stored_or object (s (key object)))) ne;
    panics = λ object f s e. finish-panicked object s (f (stored_or object (s (key object)))) e;
  }

abbrev labels : Option (List (String × String))
labels = some ((label_cluster_name, "prod") ∷ (label_workload_name, "app") ∷ [])

abbrev meta : String → ObjectMeta
meta name = record (object "team" name) { labels = labels }

abbrev pub kustomization : Kustomization
kustomization = record {
  meta = meta "app";
  kube_config = some "gone";
  prune = true;
  interval = 0;
  conditions = [];
}

abbrev pub helm_release : HelmRelease
helm_release = record {
  meta = meta "app";
  chart = some (record { chart = "nginx"; version = "1.2.3" });
  conditions = [];
}

abbrev pub repository : String → Repository
repository name = record { meta = meta name }

abbrev pub worktree : Worktree
worktree = record {
  meta = meta "app";
  url = some "https://git/app";
  reference_name = some "refs/heads/main";
  commit_hash = some "abc";
}

abbrev pub first_error : List (Option Error) → Option Error
first_error [] = none
first_error (none ∷ es) = first_error es
first_error (some e ∷ es) = some e

abbrev pub flux : FluxVersions
flux = record {
  helm_group_version = "helm.toolkit.fluxcd.io/v2";
  kustomize_group_version = "kustomize.toolkit.fluxcd.io/v1";
  source_group_version = "source.toolkit.fluxcd.io/v1";
}

abbrev pub refuse : {S A : Type 0} → CreateOrPatch S Error A
refuse object f s = (s, failed broken)

abbrev pub world :
    {S : Type 0}
    → CreateOrPatch S Error WorkloadInventory
    → CreateOrPatch S Error GitRepository
    → World S Error
world inventories repositories = record {
  get_kustomization = λ key s. (kustomization, none);
  get_helm_release = λ key s. (helm_release, none);
  get_helm_repository = λ key s. (repository "charts", none);
  get_oci_repository = λ key s. (repository "images", none);
  get_worktree = λ key s. (worktree, none);
  get_secret = λ key s. if key.name == "gone" then some missing else none;
  create_or_patch_inventory = inventories;
  create_or_patch_git_repository = repositories;
  new_kustomization_helper = λ k s. none;
  patch_kustomization = λ before after s. (s, none);
  new_aggregate = first_error;
}
