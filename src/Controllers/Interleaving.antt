-- ===== src/Controllers/Interleaving.antt =====
-- The four inventory controllers of controllers/ side by side: reconciliations of any objects, in any
-- order.
use dockyards_flux.Base.{Option, ◌≡◌, ◌≢◌, refl, arith, sym, ap, ◌∙◌, ◌⊎◌}
use dockyards_flux.Api.Objects.{ObjectKey}
use dockyards_flux.Api.Errors.{ApiErrors}
use dockyards_flux.Api.Flux.{WorkloadInventory, FluxVersions}
use dockyards_flux.Api.World.{World, IsLawfulCreateOrPatch}
use dockyards_flux.Controllers.Inventory.Writing.{inventory_key}
use dockyards_flux.Controllers.InventoryNames.{InventoryKind}
use dockyards_flux.Controllers.Sources.{
  Source, source_kind, source_key, inventory_of, reconcile_inventory,
}
use dockyards_flux.Controllers.Frames.{inventory_of_injective, Frames, reconcile_inventory-Frames}

inventory_of_ne :
    (kind kind' : InventoryKind) (key key' : ObjectKey)
    → (kind ≢ kind') ⊎ (key ≢ key')
    → inventory_of kind key ≢ inventory_of kind' key'
inventory_of_ne kind kind' key key' differ same =
    let (same_kind, same_source) = inventory_of_injective kind kind' key key' same in
    ground (arith, differ)

module _ {S E : Type 0} (errors : ApiErrors E) (flux : FluxVersions) (world : World S E)
    (stored : S → ObjectKey → Option WorkloadInventory)
    (lawful : IsLawfulCreateOrPatch inventory_key stored world.create_or_patch_inventory) where
  -- One reconciliation, whatever it returns, of the inventory for the object of a kind and a key.
  pub data Step : InventoryKind → ObjectKey → S → S → Type 0 where
    step :
        (x : Source) (kind : InventoryKind) (key : ObjectKey) (s s' : S)
        → kind ≡ source_kind x
        → key ≡ source_key x
        → (reconcile_inventory errors flux world x s).0 ≡ s'
        → Step kind key s s'

  Step_frame :
      (kind : InventoryKind) (key : ObjectKey) (s s' : S)
      → Step kind key s s'
      → Frames errors flux world stored lawful kind key s s'
  Step_frame _ _ _ _ (step x kind key s s' same_kind same_key e) other ne =
      ap (λ t. stored t other) (sym e)
      ∙ reconcile_inventory-Frames errors flux world stored lawful x s other (λ same. ne (
          same
          ∙ sym (
              ap (λ k. inventory_of k key) same_kind
              ∙ ap (λ k. inventory_of (source_kind x) k) same_key)))

  -- Any sequence of reconciliations for objects other than the one of this kind and this key, and
  -- between them of anything that leaves the inventories alone.
  pub data Run (kind : InventoryKind) (key : ObjectKey) : S → S → Type 0 where
    finished : (s : S) → Run kind key s s
    next :
        (kind' : InventoryKind) (key' : ObjectKey) (s mid s' : S)
        → (kind ≢ kind') ⊎ (key ≢ key')
        → Step kind' key' s mid
        → Run kind key mid s'
        → Run kind key s s'
    elsewhere :
        (s mid s' : S)
        → ((k : ObjectKey) → stored mid k ≡ stored s k)
        → Run kind key mid s'
        → Run kind key s s'

  -- Whatever the inventory controllers do for other objects, in any order and with any results, and
  -- whatever else leaves the inventories alone, the inventory for an object stays as it is: objects of
  -- different kinds that share a name, and objects of different names, never share an inventory.
  pub Run-frame :
      (kind : InventoryKind) (key : ObjectKey) (s s' : S)
      → Run kind key s s'
      → stored s' (inventory_of kind key) ≡ stored s (inventory_of kind key)
  Run-frame kind key _ _ (finished s) = refl
  Run-frame kind key _ _ (next kind' key' s mid s' differ first rest) =
      Run-frame kind key mid s' rest
      ∙ Step_frame kind' key' s mid first (inventory_of kind key)
          (inventory_of_ne kind kind' key key' differ)
  Run-frame kind key _ _ (elsewhere s mid s' same rest) =
      Run-frame kind key mid s' rest ∙ same (inventory_of kind key)
