-- ===== src/Controllers/Kustomization/Patching.antt =====
-- The deferred patch of controllers/kustomization_controller.go.
use dockyards_flux.Controllers.Inventory.Errors.{return_error-done}
use dockyards_flux.Base.{
  sym, ap, ◌∙◌, String, true, false, Option, none, some, List, [], ◌∷◌, ◌≡◌, ◌≢◌, refl, arith,
  Option-cases, Bool-cases, inl, inr, ◌⊎◌,
}
use dockyards_flux.Base.Outcome.{Outcome, done, failed, panicked}
use dockyards_flux.Api.Objects.{ObjectKey, is_zero}
use dockyards_flux.Api.Errors.{ApiErrors}
use dockyards_flux.Api.Flux.{Kustomization, FluxVersions}
use dockyards_flux.Api.World.{World}
use dockyards_flux.Api.Errors.{IsLawfulErrors}
use dockyards_flux.Api.Flux.{WorkloadInventory}
use dockyards_flux.Api.World.{object_key, IsLawfulCreateOrPatch}
use dockyards_flux.Controllers.Inventory.{return_error}
use dockyards_flux.Controllers.Inventory.Writing.{inventory_key}
use dockyards_flux.Controllers.InventoryNames.{kustomization}
use dockyards_flux.Controllers.Sources.{
  of_kustomization, inventory_of, IsUnlabelled, Names, IsReport,
}
use dockyards_flux.Controllers.Sources.Cases.{reconcile_inventory-cases}
use dockyards_flux.Controllers.Frames.{Frames}
use dockyards_flux.Controllers.Kustomization.Mirroring.{reconcile_kustomization_inventory-IsWritten}
use dockyards_flux.Controllers.Kustomization.Deletion.{
  IsUnreachable, IsReachable, unpruned, reconcile_delete_cases,
}
use dockyards_flux.Controllers.Kustomization.{
  patch_deferred, reconcile_with_helper, reconcile_kustomization, reconcile_delete,
  reconcile_kustomization_inventory,
}

-- kerrors.NewAggregate documents that it gives nil only where all its errors are nil.
abbrev pub KeepsErrors : {E : Type 0} → (List (Option E) → Option E) → Type 0
KeepsErrors {E} new_aggregate =
    (first : Option E) (cause : E) → new_aggregate (first ∷ some cause ∷ []) ≢ none

module _ {S E : Type 0} (errors : ApiErrors E) (flux : FluxVersions) (world : World S E) where
  -- The deferred patch returns no error only where the reconciliation returned none and the patch
  -- succeeded.
  patch_deferred-done :
      KeepsErrors world.new_aggregate
      → (before after : Kustomization) (s s' : S) (outcome : Outcome E (Unit {0}))
      → patch_deferred errors flux world before after (s, outcome) ≡ (s', done tt)
      → (outcome ≡ done tt) × (world.patch_kustomization before after s ≡ (s', none))
  unfolding patch_deferred
  patch_deferred-done keeps before after s s' (panicked) h = ground arith
  patch_deferred-done keeps before after s s' (done _) h =
      let e = (world.patch_kustomization before after s).1 in
      elim (Option-cases e) [
        | inl patched ↦ (refl, ground (arith, patched))
        | inr (cause, refused) ↦
            let aggregate = world.new_aggregate (none ∷ some cause ∷ []) in
            absurd (
              keeps none cause
                (return_error-done aggregate (world.patch_kustomization before after s).0 s'
                  (ground (arith, refused))).0)
      ]
  patch_deferred-done keeps before after s s' (failed reterr) h =
      let e = (world.patch_kustomization before after s).1 in
      elim (Option-cases e) [
        | inl patched ↦ ground (arith, patched)
        | inr (cause, refused) ↦
            let aggregate = world.new_aggregate (some reterr ∷ some cause ∷ []) in
            absurd (
              keeps (some reterr) cause
                (return_error-done aggregate (world.patch_kustomization before after s).0 s'
                  (ground (arith, refused))).0)
      ]

module _ {S E : Type 0} (errors : ApiErrors E) (flux : FluxVersions) (world : World S E)
    (stored : S → ObjectKey → Option WorkloadInventory)
    (lawful : IsLawfulCreateOrPatch inventory_key stored world.create_or_patch_inventory)
    (lawful_errors : IsLawfulErrors errors) where
  -- A kustomization that is being deleted was patched: to one that does not prune, with an interval of
  -- a minute, where its kubeconfig secret does not exist, and unchanged where that exists or is not
  -- asked for.
  abbrev pub IsDeletedAndPatched : Kustomization → S → S → Type 0
  IsDeletedAndPatched k s s' =
      (is_zero k.deletion_timestamp ≡ false)
      × ((IsUnreachable errors flux world k s
            × (world.patch_kustomization k (unpruned k) s ≡ (s', none)))
          ⊎ (IsReachable errors flux world k s × (world.patch_kustomization k k s ≡ (s', none))))

  -- The kustomization lacks a label and nothing has changed; or its inventory is stored, as a report on
  -- it, and no other inventory was touched.
  abbrev pub IsReportedOn : Kustomization → S → S → Type 0
  IsReportedOn k s mid =
      (IsUnlabelled (of_kustomization k) × (mid ≡ s))
      ⊎ ((workload : String) × (cluster : String) × (inventory : WorkloadInventory) × Names
            (of_kustomization k) workload cluster
          × (stored mid (inventory_of kustomization (object_key k.meta)) ≡ some inventory)
          × IsReport flux (of_kustomization k) workload cluster inventory
          × Frames errors flux world stored lawful kustomization (object_key k.meta) s mid)

  -- The inventory of any other was reconciled, and the kustomization was patched after that, unchanged.
  abbrev pub IsReportedAndPatched : Kustomization → S → S → Type 0
  IsReportedAndPatched k s s' =
      (mid : S) × (is_zero k.deletion_timestamp ≡ true)
      × IsReportedOn k s mid
      × (world.patch_kustomization k k mid ≡ (s', none))

  done-IsReportedOn :
      (k : Kustomization) (s mid : S)
      → reconcile_kustomization_inventory errors flux world k s ≡ (mid, done tt)
      → IsReportedOn k s mid
  done-IsReportedOn k s mid h =
      elim (reconcile_inventory-cases errors flux world (of_kustomization k) s) [
        | inl (missing, same) ↦ inl (missing, ap (λ r. r.0) (sym h ∙ same))
        | inr (w, c, (named, placed), _) ↦
            let written =
              reconcile_kustomization_inventory-IsWritten errors flux world stored lawful k s mid w
                c named placed h in
            inr (
              w,
              c,
              written.after,
              (named, placed),
              written.is_stored,
              record {
                of_workload = written.mirrors.first_label;
                of_cluster = written.mirrors.second_label;
                owned = written.mirrors.owned;
                selects = written.mirrors.selected;
              },
              written.others_kept,
            )
      ]

  deleted-done :
      KeepsErrors world.new_aggregate
      → (k after : Kustomization) (e : Option E) (s s' : S)
      → patch_deferred errors flux world k after (return_error e s) ≡ (s', done tt)
      → (e ≡ none) × (world.patch_kustomization k after s ≡ (s', none))
  deleted-done keeps k after none s s' h =
      (refl, (patch_deferred-done errors flux world keeps k after s s' (done tt) h).1)
  deleted-done keeps k after (some cause) s s' h =
      ground (arith, patch_deferred-done errors flux world keeps k after s s' (failed cause) h)

  with_helper-done :
      KeepsErrors world.new_aggregate
      → (k : Kustomization) (s s' : S) → reconcile_with_helper errors flux world k s ≡ (s', done tt)
      → IsDeletedAndPatched k s s' ⊎ IsReportedAndPatched k s s'
  unfolding reconcile_with_helper
  with_helper-done keeps k s s' h = elim (Bool-cases (is_zero k.deletion_timestamp)) [
    | inl live ↦
        let (mid, outcome) = reconcile_kustomization_inventory errors flux world k s in
        let (fine, patched) =
          patch_deferred-done errors flux world keeps k k mid s' outcome (ground (arith, live)) in
        inr (mid, live, done-IsReportedOn k s mid (ground (arith, fine)), patched)
    | inr deleted ↦
        let (after, e) = reconcile_delete errors flux world k s in
        let (fine, patched) = deleted-done keeps k after e s s' (ground (arith, deleted)) in
        inl (
          deleted,
          elim (reconcile_delete_cases errors flux world lawful_errors k s) [
            | inl (unreachable, same) ↦
                inl (unreachable, ap (λ x. world.patch_kustomization k x.0 s) (sym same) ∙ patched)
            | inr (inl (cause, fails, same)) ↦ ground (arith, same, fine)
            | inr (inr (reachable, same)) ↦
                inr (reachable, ap (λ x. world.patch_kustomization k x.0 s) (sym same) ∙ patched)
          ],
        )
  ]

  -- A reconciliation that returns no error has either not found the kustomization and changed nothing;
  -- or, where it is being deleted, patched it, without pruning where its kubeconfig secret does not
  -- exist and unchanged otherwise; or, where it is not, stored a report on it as its inventory, unless
  -- it lacks a label, touched no other inventory, and then patched it unchanged.
  pub reconcile_kustomization-done :
      KeepsErrors world.new_aggregate
      → (key : ObjectKey) (s s' : S)
      → reconcile_kustomization errors flux world key s ≡ (s', done tt)
      → let (k, e) = world.get_kustomization key s in
        ((e ≢ none) × (errors.ignore_not_found e ≡ none) × (s' ≡ s))
        ⊎ ((e ≡ none)
            × (world.new_kustomization_helper k s ≡ none)
            × (IsDeletedAndPatched k s s' ⊎ IsReportedAndPatched k s s'))
  unfolding reconcile_kustomization
  reconcile_kustomization-done keeps key s s' h =
      let (k, e) = world.get_kustomization key s in
      elim (Option-cases e) [
        | inr (cause, missing) ↦
            let (found, same) =
              return_error-done (errors.ignore_not_found e) s s' (ground (arith, missing)) in
            inl (ground (arith, missing), found, sym same)
        | inl got ↦ elim (Option-cases (world.new_kustomization_helper k s)) [
          | inl made ↦ inr (got, made, with_helper-done keeps k s s' (ground (arith, got, made)))
          | inr (cause, refused) ↦ ground (arith, got, refused)
        ]
      ]
