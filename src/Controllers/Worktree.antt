-- ===== src/Controllers/Worktree.antt =====
-- controllers/dockyardsworktree_controller.go
pub mod Mirroring
use dockyards_flux.Base.{
  ℕ, String, Bool, true, Option, none, some, List, [], ◌∷◌, if◌then◌else◌, is_some, not, ◌*◌, ◌&&◌,
}
use dockyards_flux.Base.Outcome.{Outcome, done}
use dockyards_flux.Api.Constants.{worktree_kind}
use dockyards_flux.Api.Objects.{ObjectKey, OwnerReference}
use dockyards_flux.Api.Errors.{ApiErrors}
use dockyards_flux.Api.Flux.{Worktree, GitRepository, GitRepositoryRef, Duration, minute}
use dockyards_flux.Api.Client.{GroupVersions}
use dockyards_flux.Api.World.{World}
use dockyards_flux.Controllers.Inventory.{Reconciled, return_error, return_operation}

abbrev pub new_git_repository : Worktree → GitRepository
new_git_repository w = record {
  meta = record {
    name = w.name;
    namespace = w.namespace;
    uid = "";
    labels = none;
    owner_references = [];
    deletion_timestamp = none;
  };
  url = "";
  interval = 0;
  reference = none;
}

abbrev pub worktree_owner : GroupVersions → Worktree → OwnerReference
worktree_owner gv w = record {
  api_version = gv.dockyards_group_version;
  kind = worktree_kind;
  name = w.name;
  uid = w.uid;
  block_owner_deletion = some true;
  controller = none;
}

abbrev pub named_reference : String → GitRepositoryRef
named_reference name = record { branch = ""; tag = ""; sem_ver = ""; name = name; commit = "" }

abbrev pub commit_reference : String → GitRepositoryRef
commit_reference commit = record { branch = ""; tag = ""; sem_ver = ""; name = ""; commit = commit }

-- `if p != nil { spec.Reference = &GitRepositoryRef{…*p} }`
abbrev pub set_reference :
    (String → GitRepositoryRef) → Option String → Option GitRepositoryRef → Option GitRepositoryRef
set_reference make none reference = reference
set_reference make (some p) reference = some (make p)

-- the callback, with the URL that is not nil
unfoldable pub fill_git_repository :
    {E : Type 0} → GroupVersions → Worktree → String → GitRepository → Outcome E GitRepository
fill_git_repository gv w url repository = done (record repository {
  meta = record repository.meta { owner_references = worktree_owner gv w ∷ [] };
  url = url;
  interval = minute * 5;
  reference =
      set_reference commit_reference w.commit_hash
        (set_reference named_reference w.reference_name repository.reference);
})

module _ {S E : Type 0} (errors : ApiErrors E) (gv : GroupVersions) (world : World S E) where
  unfoldable pub reconcile_git_repository : Worktree → S → Reconciled S E
  reconcile_git_repository w s = elim w.url [
    | none ↦ (s, done tt)
    | some url ↦
        if not (is_some w.reference_name) && not (is_some w.commit_hash)
        then (s, done tt)
        else return_operation (
            world.create_or_patch_git_repository (new_git_repository w)
              (fill_git_repository gv w url) s)
  ]

  unfoldable pub reconcile_worktree : ObjectKey → S → Reconciled S E
  reconcile_worktree key s =
      let (w, e) = world.get_worktree key s in
      if is_some e then return_error (errors.ignore_not_found e) s else reconcile_git_repository w s
