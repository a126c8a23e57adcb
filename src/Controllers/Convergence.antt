-- ===== src/Controllers/Convergence.antt =====
-- What earlier versions of an object leave of themselves in its inventory: nothing, once the controller
-- in controllers/ has written it for the present one.
use dockyards_flux.Base.{◌<>◌, String, Option, some, ◌≡◌, inl, inr, refl, sym, ap, ◌∙◌}
use dockyards_flux.Base.Outcome.{Outcome, done}
use dockyards_flux.Api.Objects.{ObjectKey}
use dockyards_flux.Api.Errors.{ApiErrors}
use dockyards_flux.Api.Flux.{WorkloadInventory, FluxVersions}
use dockyards_flux.Api.World.{World, OperationResult, IsLawfulCreateOrPatch, stored_or}
use dockyards_flux.Controllers.Inventory.Writing.{inventory_key}
use dockyards_flux.Controllers.InventoryNames.{suffix}
use dockyards_flux.Controllers.Sources.{
  Source, of_kustomization, of_helm_release, of_helm_repository, of_oci_repository, inventory_for,
  fill_for, write_inventory, inventory_for-inventory_of, source_kind, source_key, inventory_of,
  Names, reconcile_inventory,
}
use dockyards_flux.Controllers.Sources.Cases.{reconcile_inventory-write_inventory}
use dockyards_flux.Controllers.Sources.Absorbing.{fill_for_absorbs}
use dockyards_flux.Controllers.Inventory.{new_inventory}
use dockyards_flux.Controllers.Provenance.{Trace, start, then, elsewhere}
use dockyards_flux.Controllers.Interleaving.{Run, Run-frame}
use dockyards_flux.Controllers.Frames.{reconcile_inventory-at}

module _ {S E : Type 0} (errors : ApiErrors E) (flux : FluxVersions) (world : World S E)
    (stored : S → ObjectKey → Option WorkloadInventory)
    (lawful : IsLawfulCreateOrPatch inventory_key stored world.create_or_patch_inventory) where
  -- What a source makes of the inventory that it finds, and of a new one where it finds none.
  abbrev pub refilled : Source → String → String → S → Outcome E WorkloadInventory
  refilled x workload cluster s =
      fill_for flux x workload cluster
        (stored_or (inventory_for x) (stored s (inventory_of (source_kind x) (source_key x))))

  -- Objects of one kind and one key begin with the same new inventory.
  inventory_for_lem :
      (x : Source)
      → inventory_for x
        ≡ new_inventory ((source_key x).name <> suffix (source_kind x)) (source_key x).namespace
  inventory_for_lem (of_kustomization k) = refl
  inventory_for_lem (of_helm_release r) = refl
  inventory_for_lem (of_helm_repository r) = refl
  inventory_for_lem (of_oci_repository r) = refl

  inventory_for_same :
      (x y : Source)
      → source_kind x ≡ source_kind y
      → source_key x ≡ source_key y
      → inventory_for x ≡ inventory_for y
  inventory_for_same x y kinds keys =
      inventory_for_lem x
      ∙ ap (λ k. new_inventory ((source_key x).name <> suffix k) (source_key x).namespace) kinds
      ∙ ap (λ k. new_inventory (k.name <> suffix (source_kind y)) k.namespace) keys
      ∙ sym (inventory_for_lem y)

  -- A reconciliation, of whatever object, changes nothing about that.
  step-refilled :
      (x y : Source) (w c : String) (s : S)
      → refilled x w c (reconcile_inventory errors flux world y s).0 ≡ refilled x w c s
  step-refilled x y w c s =
      let key = inventory_of (source_kind x) (source_key x) in
      let here =
        reconcile_inventory-at errors flux world stored lawful y s (source_kind x) (source_key x) in
      elim here [
        | inl kept ↦ ap (λ o. fill_for flux x w c (stored_or (inventory_for x) o)) kept
        | inr (same_kind, same_key, (w', c', inventory, names, filled, set)) ↦
            ap (λ o. fill_for flux x w c (stored_or (inventory_for x) o)) set
            ∙ fill_for_absorbs flux y x w' c' w c (stored_or (inventory_for y) (stored s key))
                inventory (sym same_kind) filled
            ∙ ap (λ i. fill_for flux x w c (stored_or i (stored s key)))
                (inventory_for_same y x (sym same_kind) (sym same_key))
      ]

  Trace-refilled :
      (x : Source) (w c : String) (P : Source → S → Type 0) (s s' : S)
      → Trace errors flux world stored lawful P s s'
      → refilled x w c s' ≡ refilled x w c s
  Trace-refilled x w c P _ _ (start s) = refl
  Trace-refilled x w c P _ _ (then y s mid s' holds before e) =
      ap (λ t. refilled x w c t) (sym e)
      ∙ step-refilled x y w c mid
      ∙ Trace-refilled x w c P s mid before
  Trace-refilled x w c P _ _ (elsewhere s mid s' before same) =
      ap (λ o. fill_for flux x w c (stored_or (inventory_for x) o))
        (same (inventory_of (source_kind x) (source_key x)))
      ∙ Trace-refilled x w c P s mid before

  -- Once the inventory of a labelled object has been written without error, after whatever
  -- reconciliations of that object, of earlier versions of it and of any others, and whatever else
  -- leaves the inventories alone, and then followed by any of other objects, it is what the callback
  -- for this version of the object makes of the inventory that was there at the beginning, or of a new
  -- one if there was none: what happened in between leaves no trace in it.
  pub Trace-write_inventory :
      (x : Source) (w c : String) (P : Source → S → Type 0) (s mid s' : S) (op : OperationResult)
      → Trace errors flux world stored lawful P s mid
      → Names x w c
      → (write_inventory errors flux world x w c mid).1 ≡ done op
      → Run errors flux world stored lawful
          (source_kind x)
          (source_key x)
          (reconcile_inventory errors flux world x mid).0
          s'
      → (after : WorkloadInventory) × (refilled x w c s ≡ done after)
        × (stored s' (inventory_of (source_kind x) (source_key x)) ≡ some after)
  Trace-write_inventory x w c P s mid s' op trace names written run =
      let t = (write_inventory errors flux world x w c mid).0 in
      let (after, filled, set) =
        lawful.result_stored (inventory_for x) (fill_for flux x w c) mid t op
          (ap (λ (o : Outcome E OperationResult). (t, o)) written) in
      (
        after,
        sym (Trace-refilled x w c P s mid trace)
            ∙ ap (λ k. fill_for flux x w c (stored_or (inventory_for x) (stored mid k)))
                (sym (inventory_for-inventory_of x))
            ∙ filled,
        Run-frame errors flux world stored lawful (source_kind x) (source_key x) _ s' run
            ∙ ap (λ r. stored r (inventory_of (source_kind x) (source_key x)))
                (reconcile_inventory-write_inventory errors flux world x w c mid names)
            ∙ ap (λ k. stored t k) (sym (inventory_for-inventory_of x))
            ∙ set,
      )
