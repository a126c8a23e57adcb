-- ===== src/Controllers/Worktree/Mirroring.antt =====
-- The GitRepository that controllers/dockyardsworktree_controller.go writes.
use dockyards_flux.Base.{
  true, String, Option, none, some, [], ◌∷◌, ◌≡◌, sym, ap, ◌∙◌, ◌≢◌, ◌⊎◌, inl, inr, arith,
  Option-cases,
}
use dockyards_flux.Base.Outcome.{done}
use dockyards_flux.Api.Objects.{ObjectKey}
use dockyards_flux.Api.Errors.{ApiErrors}
use dockyards_flux.Api.Flux.{Worktree, GitRepository, GitRepositoryRef}
use dockyards_flux.Api.Client.{GroupVersions}
use dockyards_flux.Api.World.{World, OperationResult, object_key, IsLawfulCreateOrPatch}
use dockyards_flux.Controllers.Inventory.Writing.{return_operation-done}
use dockyards_flux.Controllers.Worktree.{
  new_git_repository, fill_git_repository, reconcile_git_repository,
}

abbrev pub repository_key : GitRepository → ObjectKey
repository_key r = object_key r.meta

-- What the status of a worktree asks for: its commit if it has one, and the reference by name
-- otherwise.
pub data Asks (w : Worktree) : GitRepositoryRef → Type 0 where
  commit :
      (hash : String)
      → w.commit_hash ≡ some hash
      → Asks w (record { branch = ""; tag = ""; sem_ver = ""; name = ""; commit = hash })
  name :
      (n : String)
      → w.commit_hash ≡ none
      → w.reference_name ≡ some n
      → Asks w (record { branch = ""; tag = ""; sem_ver = ""; name = n; commit = "" })

-- The repository publishes the worktree: it is owned by the worktree alone, has its URL, is fetched
-- every five minutes, and has the reference that the status asks for.
pub record IsPublished (gv : GroupVersions) (w : Worktree) (url : String) (after : GitRepository)
    : Type 0 where
  pub owned :
      after.owner_references
      ≡ record {
        api_version = gv.dockyards_group_version;
        kind = "Worktree";
        name = w.meta.name;
        uid = w.meta.uid;
        block_owner_deletion = some true;
        controller = none;
      }
        ∷ []
  pub same_url : after.url ≡ url
  pub every : after.interval ≡ 300000000000
  pub reference : GitRepositoryRef
  pub asked : Asks w reference
  pub referenced : after.reference ≡ some reference

module _ {S E : Type 0} (errors : ApiErrors E) (gv : GroupVersions) (world : World S E)
    (stored : S → ObjectKey → Option GitRepository)
    (lawful : IsLawfulCreateOrPatch repository_key stored
      world.create_or_patch_git_repository) where
  fill-IsPublished :
      (w : Worktree) (url : String) (before after : GitRepository)
      → (w.reference_name ≢ none) ⊎ (w.commit_hash ≢ none)
      → fill_git_repository {E = E} gv w url before ≡ done after
      → IsPublished gv w url after
  unfolding fill_git_repository
  fill-IsPublished w url before after some_reference e = elim (Option-cases w.commit_hash) [
    | inr (hash, present) ↦ record {
      owned = ground arith;
      same_url = ground arith;
      every = ground arith;
      reference = record { branch = ""; tag = ""; sem_ver = ""; name = ""; commit = hash };
      asked = commit hash present;
      referenced = ground (arith, present);
    }
    | inl absent ↦ elim (Option-cases w.reference_name) [
      | inr (n, named) ↦ record {
        owned = ground arith;
        same_url = ground arith;
        every = ground arith;
        reference = record { branch = ""; tag = ""; sem_ver = ""; name = n; commit = "" };
        asked = name n absent named;
        referenced = ground (arith, absent, named);
      }
      | inl unnamed ↦ ground (arith, absent, unnamed)
    ]
  ]

  operation_done :
      (w : Worktree) (url : String) (s s' : S)
      → w.url ≡ some url
      → (w.reference_name ≢ none) ⊎ (w.commit_hash ≢ none)
      → reconcile_git_repository errors gv world w s ≡ (s', done tt)
      → (op : OperationResult) × (world.create_or_patch_git_repository
            (new_git_repository w)
            (fill_git_repository gv w url)
            s
          ≡ (s', done op))
  unfolding reconcile_git_repository
  operation_done w url s s' has_url some_reference e =
      let result =
        world.create_or_patch_git_repository (new_git_repository w) (fill_git_repository gv w url)
          s in
      return_operation-done result s' (ground (arith, has_url))

  -- Where the status of a worktree has a URL and a reference or a commit, a reconciliation that
  -- returns no error has stored a GitRepository of its name that publishes it, the commit taking
  -- precedence over the reference, and has touched no other.
  pub reconcile_git_repository-IsPublished :
      (w : Worktree) (url : String) (s s' : S)
      → w.url ≡ some url
      → (w.reference_name ≢ none) ⊎ (w.commit_hash ≢ none)
      → reconcile_git_repository errors gv world w s ≡ (s', done tt)
      → (after : GitRepository) × (stored s' (object_key w.meta) ≡ some after)
        × IsPublished gv w url after
        × ((other : ObjectKey) → other ≢ object_key w.meta → stored s' other ≡ stored s other)
  reconcile_git_repository-IsPublished w url s s' has_url some_reference e =
      let (op, result) = operation_done w url s s' has_url some_reference e in
      let object = new_git_repository w in
      let (after, filled, is_stored) = lawful.result_stored object _ s s' op result in
      (
        after,
        is_stored,
        fill-IsPublished w url _ after some_reference filled,
        λ other ne.
            sym (ap (λ x. stored x.0 other) result) ∙ lawful.others_kept object _ s other ne,
      )
