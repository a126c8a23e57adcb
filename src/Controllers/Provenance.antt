-- ===== src/Controllers/Provenance.antt =====
-- Where the inventories in the cluster come from: reconciliations of the inventory controllers of
-- controllers/ in any order, for any versions of the objects.
use dockyards_flux.Base.{sym, subst, String, Option, some, ◌≡◌, ◌⊎◌, inl, inr, refl, ◌∙◌}
use dockyards_flux.Api.Objects.{ObjectKey}
use dockyards_flux.Api.Errors.{ApiErrors}
use dockyards_flux.Api.Flux.{WorkloadInventory, FluxVersions}
use dockyards_flux.Api.World.{World, IsLawfulCreateOrPatch}
use dockyards_flux.Controllers.Inventory.Writing.{inventory_key}
use dockyards_flux.Controllers.InventoryNames.{InventoryKind}
use dockyards_flux.Controllers.Sources.{
  Source, source_kind, source_key, inventory_of, Names, IsReport, reconcile_inventory,
}
use dockyards_flux.Controllers.Sources.Reports.{fill_for-IsReport}
use dockyards_flux.Controllers.Frames.{reconcile_inventory-at}

module _ {S E : Type 0} (errors : ApiErrors E) (flux : FluxVersions) (world : World S E)
    (stored : S → ObjectKey → Option WorkloadInventory)
    (lawful : IsLawfulCreateOrPatch inventory_key stored world.create_or_patch_inventory) where
  -- Reconciliations, with whatever results, of objects of which `P` holds in the state in which they
  -- begin, and between them anything that leaves the inventories alone.
  pub data Trace (P : Source → S → Type 0) : S → S → Type 0 where
    start : (s : S) → Trace P s s
    then :
        (x : Source) (s mid s' : S)
        → P x mid
        → Trace P s mid
        → (reconcile_inventory errors flux world x mid).0 ≡ s'
        → Trace P s s'
    elsewhere :
        (s mid s' : S)
        → Trace P s mid
        → ((k : ObjectKey) → stored s' k ≡ stored mid k)
        → Trace P s s'

  pub Trace_append :
      (P : Source → S → Type 0) (s mid s' : S) → Trace P s mid → Trace P mid s' → Trace P s s'
  Trace_append P s _ _ front (start mid) = front
  Trace_append P s _ _ front (then x mid t s' holds before e) =
      then x s t s' holds (Trace_append P s mid t front before) e
  Trace_append P s _ _ front (elsewhere mid t s' before same) =
      elsewhere s t s' (Trace_append P s mid t front before) same

  -- There is an object of the kind and with the key, of which `P` holds in a state that was come to, and
  -- the inventory reports what its labels, its owner reference and its selector are.
  abbrev pub IsReported :
      (Source → S → Type 0) → S → InventoryKind → ObjectKey → Option WorkloadInventory → Type 0
  IsReported P s kind key found =
      (x : Source) × (t : S) × Trace P s t
      × P x t
      × (kind ≡ source_kind x)
      × (key ≡ source_key x)
      × (workload : String) × (cluster : String) × (inventory : WorkloadInventory) × Names x
          workload cluster
      × IsReport flux x workload cluster inventory
      × (found ≡ some inventory)

  -- What one reconciliation adds to what was so before it.
  step-IsReported :
      (P : Source → S → Type 0) (x : Source) (s mid : S) (kind : InventoryKind) (key : ObjectKey)
      → Trace P s mid
      → P x mid
      → let k = inventory_of kind key in
        let s' = (reconcile_inventory errors flux world x mid).0 in
        (stored mid k ≡ stored s k) ⊎ IsReported P s kind key (stored mid k)
        → (stored s' k ≡ stored s k) ⊎ IsReported P s kind key (stored s' k)
  step-IsReported P x s mid kind key front holds before =
      elim (reconcile_inventory-at errors flux world stored lawful x mid kind key) [
        | inl kept ↦ elim before [
          | inl same ↦ inl (kept ∙ same)
          | inr (y, t, front', holds', k, o, w, c, inventory, names, report, found) ↦
              inr (y, t, front', holds', k, o, w, c, inventory, names, report, kept ∙ found)
        ]
        | inr (same_kind, same_key, (w, c, inventory, names, filled, set)) ↦ inr (
          x,
          mid,
          front,
          holds,
          same_kind,
          same_key,
          w,
          c,
          inventory,
          names,
          fill_for-IsReport flux x w c _ inventory filled,
          set,
        )
      ]

  -- Whatever objects the inventory controllers reconcile, in whatever order and with whatever results,
  -- and whatever else happens that leaves the inventories alone, the inventory for an object is
  -- afterwards as it was at the beginning, or it is a report on one of the objects that were reconciled,
  -- of that kind and with that name and namespace: the workload and the cluster are those in its labels,
  -- it is the only owner, and the selector finds what it makes.
  pub Trace-IsReported :
      (P : Source → S → Type 0) (s s' : S) (kind : InventoryKind) (key : ObjectKey)
      → Trace P s s'
      → (stored s' (inventory_of kind key) ≡ stored s (inventory_of kind key))
        ⊎ IsReported P s kind key (stored s' (inventory_of kind key))
  Trace-IsReported P _ _ kind key (start s) = inl refl
  Trace-IsReported P _ _ kind key (then x s mid s' holds before e) =
      let k = inventory_of kind key in
      subst (λ t. (stored t k ≡ stored s k) ⊎ IsReported P s kind key (stored t k)) e
        (step-IsReported P x s mid kind key before holds (Trace-IsReported P s mid kind key before))
  Trace-IsReported P _ _ kind key (elsewhere s mid s' before same) =
      let k = inventory_of kind key in
      subst (λ found. (found ≡ stored s k) ⊎ IsReported P s kind key found) (sym (same k))
        (Trace-IsReported P s mid kind key before)
