-- ===== src/Controllers/Reading.antt =====
-- `Reconcile` of the three controllers of controllers/ that write inventories, whole: what it reads and
-- what it does to the inventories.
use dockyards_flux.Controllers.Inventory.Errors.{return_error-state}
use dockyards_flux.Base.{
  true, Bool-cases, Option, none, some, [], ◌∷◌, ◌≡◌, inl, inr, refl, arith, sym, ap, ◌∙◌, subst,
  Option-cases,
}
use dockyards_flux.Base.Outcome.{Outcome, Outcome-cases, done, failed, panicked}
use dockyards_flux.Api.Objects.{ObjectKey, is_zero}
use dockyards_flux.Api.Errors.{ApiErrors, IsLawfulErrors}
use dockyards_flux.Api.Flux.{Kustomization, WorkloadInventory, FluxVersions}
use dockyards_flux.Api.World.{World, IsLawfulCreateOrPatch}
use dockyards_flux.Controllers.Inventory.{Reconciled, return_error}
use dockyards_flux.Controllers.Inventory.Writing.{inventory_key}
use dockyards_flux.Controllers.Kustomization.{
  reconcile_kustomization_inventory, reconcile_delete, patch_deferred, reconcile_with_helper,
  reconcile_kustomization,
}
use dockyards_flux.Controllers.HelmRelease.{reconcile_helm_release}
use dockyards_flux.Controllers.SourceRepository.{
  reconcile_helm_repository, reconcile_oci_repository, reconcile_source_repository,
}
use dockyards_flux.Controllers.Sources.{
  Source, of_kustomization, of_helm_release, of_helm_repository, of_oci_repository,
  reconcile_inventory,
}
use dockyards_flux.Controllers.Provenance.{Trace, start, then, elsewhere, Trace_append}

-- A request to one of the controllers.
pub data Request : Type 0 where
  for_kustomization for_helm_release for_source_repository : ObjectKey → Request

-- What Patch of a kustomization documents: no other object is changed.
abbrev pub KeepsInventories :
    {S E : Type 0} → World S E → (S → ObjectKey → Option WorkloadInventory) → Type 0
KeepsInventories {S = S} world stored =
    (before after : Kustomization) (s : S) (k : ObjectKey)
    → stored (world.patch_kustomization before after s).0 k ≡ stored s k

module _ {S E : Type 0} (errors : ApiErrors E) (flux : FluxVersions) (world : World S E)
    (stored : S → ObjectKey → Option WorkloadInventory)
    (lawful : IsLawfulCreateOrPatch inventory_key stored world.create_or_patch_inventory)
    (keeps : KeepsInventories world stored) (lawful_errors : IsLawfulErrors errors) where
  abbrev pub reconcile : Request → S → Reconciled S E
  reconcile (for_kustomization key) s = reconcile_kustomization errors flux world key s
  reconcile (for_helm_release key) s = reconcile_helm_release errors flux world key s
  reconcile (for_source_repository key) s = reconcile_source_repository errors flux world key s

  -- A Get returns the object without an error, and it is not being deleted.
  abbrev pub IsRead : Source → S → Type 0
  IsRead (of_kustomization k) s =
      (key : ObjectKey) × (world.get_kustomization key s ≡ (k, none))
      × (is_zero k.deletion_timestamp ≡ true)
  IsRead (of_helm_release r) s =
      (key : ObjectKey) × (world.get_helm_release key s ≡ (r, none))
      × (is_zero r.deletion_timestamp ≡ true)
  IsRead (of_helm_repository r) s =
      (key : ObjectKey) × (world.get_helm_repository key s ≡ (r, none))
      × (is_zero r.deletion_timestamp ≡ true)
  IsRead (of_oci_repository r) s =
      (key : ObjectKey) × (world.get_oci_repository key s ≡ (r, none))
      × (is_zero r.deletion_timestamp ≡ true)

  abbrev pub Reads : S → S → Type 0
  Reads s s' = Trace errors flux world stored lawful IsRead s s'

  idle : (s s' : S) → s' ≡ s → Reads s s'
  idle s s' same = subst (λ t. Reads s t) (sym same) (start s)

  one :
      (x : Source) (s s' : S)
      → IsRead x s
      → s' ≡ (reconcile_inventory errors flux world x s).0
      → Reads s s'
  one x s s' read same = then x s s s' read (start s) (sym same)

  patch_deferred-state :
      (before after : Kustomization) (s : S) (outcome : Outcome E (Unit {0}))
      → (patch_deferred errors flux world before after (s, outcome)).0
        ≡ (world.patch_kustomization before after s).0
  unfolding patch_deferred
  patch_deferred-state before after s panicked = refl
  patch_deferred-state before after s (done x) =
      let (t, e) = world.patch_kustomization before after s in
      let joined = return_error-state (world.new_aggregate (none ∷ e ∷ [])) t in
      elim (Option-cases e) [
        | inl patched ↦ ground (arith, patched)
        | inr (problem, refused) ↦ ground (arith, refused, joined)
      ]
  patch_deferred-state before after s (failed x) =
      let (t, e) = world.patch_kustomization before after s in
      let joined = return_error-state (world.new_aggregate (some x ∷ e ∷ [])) t in
      elim (Option-cases e) [
        | inl patched ↦ ground (arith, patched)
        | inr (problem, refused) ↦ ground (arith, refused, joined)
      ]

  -- The deferred patch after a state that was come to.
  patched :
      (before after : Kustomization) (s mid s' : S) (outcome : Outcome E (Unit {0}))
      → Reads s mid
      → s' ≡ (patch_deferred errors flux world before after (mid, outcome)).0
      → Reads s s'
  patched before after s mid s' outcome front same = elsewhere s mid s' front (λ k.
      ap (λ t. stored t k) (same ∙ patch_deferred-state before after mid outcome)
      ∙ keeps before after mid k)

  kustomization-Reads :
      (key : ObjectKey) (s : S) → Reads s (reconcile_kustomization errors flux world key s).0
  unfolding reconcile_kustomization reconcile_with_helper
  kustomization-Reads key s =
      let (k, e) = world.get_kustomization key s in
      let (after, problem) = reconcile_delete errors flux world k s in
      let (mid, outcome) = reconcile_kustomization_inventory errors flux world k s in
      let (left, returned) = return_error problem s in
      elim (Option-cases e) [
        | inr (cause, missing) ↦
            idle s _ (ground (arith, missing, return_error-state (errors.ignore_not_found e) s))
        | inl got ↦ elim (Option-cases (world.new_kustomization_helper k s)) [
          | inr (cause, refused) ↦ idle s _ (ground (arith, got, refused))
          | inl made ↦ elim (Bool-cases (is_zero k.deletion_timestamp)) [
            | inr deleted ↦
                patched k after s left _ returned (idle s left (return_error-state problem s))
                  (ground (arith, got, made, deleted))
            | inl live ↦
                patched k k s mid _ outcome
                  (one (of_kustomization k) s mid (key, ground (arith, got), live) refl)
                  (ground (arith, got, made, live))
          ]
        ]
      ]

  helm_release-Reads :
      (key : ObjectKey) (s : S) → Reads s (reconcile_helm_release errors flux world key s).0
  unfolding reconcile_helm_release
  helm_release-Reads key s =
      let (r, e) = world.get_helm_release key s in
      elim (Option-cases e) [
        | inr (cause, missing) ↦
            idle s _ (ground (arith, missing, return_error-state (errors.ignore_not_found e) s))
        | inl got ↦ elim (Bool-cases (is_zero r.deletion_timestamp)) [
          | inr deleted ↦ idle s _ (ground (arith, got, deleted))
          | inl live ↦
              one (of_helm_release r) s _ (key, ground (arith, got), live)
                (ground (arith, got, live))
        ]
      ]

  helm_repository-Reads :
      (key : ObjectKey) (s : S) → Reads s (reconcile_helm_repository errors flux world key s).0
  unfolding reconcile_helm_repository
  helm_repository-Reads key s =
      let (r, e) = world.get_helm_repository key s in
      let law = lawful_errors.ignore_not_found_lem e in
      let nil = lawful_errors.is_not_found-nil in
      elim (Option-cases e) [
        | inr (cause, missing) ↦ idle s _ (ground (arith, missing, law, return_error-state e s))
        | inl got ↦ elim (Bool-cases (is_zero r.deletion_timestamp)) [
          | inr deleted ↦ idle s _ (ground (arith, got, law, nil, deleted))
          | inl live ↦
              one (of_helm_repository r) s _ (key, ground (arith, got), live)
                (ground (arith, got, law, nil, live))
        ]
      ]

  oci_repository-Reads :
      (key : ObjectKey) (s : S) → Reads s (reconcile_oci_repository errors flux world key s).0
  unfolding reconcile_oci_repository
  oci_repository-Reads key s =
      let (r, e) = world.get_oci_repository key s in
      let law = lawful_errors.ignore_not_found_lem e in
      let nil = lawful_errors.is_not_found-nil in
      elim (Option-cases e) [
        | inr (cause, missing) ↦ idle s _ (ground (arith, missing, law, return_error-state e s))
        | inl got ↦ elim (Bool-cases (is_zero r.deletion_timestamp)) [
          | inr deleted ↦ idle s _ (ground (arith, got, law, nil, deleted))
          | inl live ↦
              one (of_oci_repository r) s _ (key, ground (arith, got), live)
                (ground (arith, got, law, nil, live))
        ]
      ]

  source_repository-Reads :
      (key : ObjectKey) (s : S) → Reads s (reconcile_source_repository errors flux world key s).0
  unfolding reconcile_source_repository
  source_repository-Reads key s =
      let (mid, outcome) = reconcile_helm_repository errors flux world key s in
      let first = helm_repository-Reads key s in
      elim (Outcome-cases outcome) [
        | inl (x, fine) ↦
            subst (λ t. Reads s t) (ground (arith, fine))
              (Trace_append errors flux world stored lawful IsRead s mid _ first
                (oci_repository-Reads key mid))
        | inr (inl (e, wrong)) ↦ subst (λ t. Reads s t) (ground (arith, wrong)) first
        | inr (inr wrong) ↦ subst (λ t. Reads s t) (ground (arith, wrong)) first
      ]

  pub reconcile-Reads : (request : Request) (s : S) → Reads s (reconcile request s).0
  reconcile-Reads (for_kustomization key) s = kustomization-Reads key s
  reconcile-Reads (for_helm_release key) s = helm_release-Reads key s
  reconcile-Reads (for_source_repository key) s = source_repository-Reads key s
