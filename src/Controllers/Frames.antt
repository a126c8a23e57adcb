-- ===== src/Controllers/Frames.antt =====
-- What one reconciliation of an inventory controller of controllers/ does to each inventory.
use dockyards_flux.Base.{
  subst, String, ◌<>◌, Option, some, ◌≡◌, ◌≢◌, ◌⊎◌, inl, inr, arith, sym, ap, ◌∙◌,
}
use dockyards_flux.Base.Outcome.{done}
use dockyards_flux.Api.Objects.{ObjectKey, same_key, same_key-IsKeyTest}
use dockyards_flux.Api.Errors.{ApiErrors}
use dockyards_flux.Api.Flux.{WorkloadInventory, FluxVersions}
use dockyards_flux.Api.World.{World}
use mathlib.Core.Bool.{true, Bool-discrete}
use dockyards_flux.Controllers.InventoryNames.{inventory_name_injective, InventoryKind, suffix}
use dockyards_flux.Controllers.Sources.{
  Source, source_kind, source_key, inventory_for, inventory_of, inventory_for-inventory_of, Names,
  fill_for, reconcile_inventory,
}
use dockyards_flux.Controllers.Sources.Cases.{reconcile_inventory-cases}
use dockyards_flux.Controllers.Inventory.Writing.{inventory_key}
use dockyards_flux.Api.World.{stored_or, IsLawfulCreateOrPatch}

-- An inventory is for one object of one kind.
pub inventory_of_injective :
    (kind kind' : InventoryKind) (key key' : ObjectKey)
    → inventory_of kind key ≡ inventory_of kind' key'
    → (kind ≡ kind') × (key ≡ key')
inventory_of_injective kind kind' key key' same =
    let names : key.name <> suffix kind ≡ key'.name <> suffix kind' = ap (λ k. k.name) same in
    let namespaces : key.namespace ≡ key'.namespace = ap (λ k. k.namespace) same in
    let (same_kind, same_name) = inventory_name_injective kind kind' key.name key'.name names in
    (same_kind, ground (arith, same_name, namespaces))

module _ {S E : Type 0} (errors : ApiErrors E) (flux : FluxVersions) (world : World S E)
    (stored : S → ObjectKey → Option WorkloadInventory)
    (lawful : IsLawfulCreateOrPatch inventory_key stored world.create_or_patch_inventory) where
  -- No reconciliation touches an inventory other than that for its object.
  abbrev pub Frames : InventoryKind → ObjectKey → S → S → Type 0
  Frames kind key s s' =
      (other : ObjectKey) → other ≢ inventory_of kind key → stored s' other ≡ stored s other

  pub reconcile_inventory-Frames :
      (x : Source) (s : S)
      → Frames (source_kind x) (source_key x) s (reconcile_inventory errors flux world x s).0
  reconcile_inventory-Frames x s other ne = elim (reconcile_inventory-cases errors flux world x s) [
    | inl (missing, same) ↦ ap (λ r. stored r.0 other) same
    | inr (w, c, names, same) ↦
        ap (λ t. stored t other) same
        ∙ lawful.others_kept (inventory_for x) (fill_for flux x w c) s other
            (λ e. ne (e ∙ inventory_for-inventory_of x))
  ]

  -- The inventory for the object, after a reconciliation with whatever result, is as before, or is what
  -- the callback made of it.
  abbrev pub IsFilled : Source → Option WorkloadInventory → Option WorkloadInventory → Type 0
  IsFilled x before after =
      (w : String) × (c : String) × (inventory : WorkloadInventory) × Names x w c
      × (fill_for flux {E = E} x w c (stored_or (inventory_for x) before) ≡ done inventory)
      × (after ≡ some inventory)

  pub reconcile_inventory-own :
      (x : Source) (s : S)
      → let key = inventory_of (source_kind x) (source_key x) in
        let s' = (reconcile_inventory errors flux world x s).0 in
        (stored s' key ≡ stored s key) ⊎ IsFilled x (stored s key) (stored s' key)
  reconcile_inventory-own x s =
      let key = inventory_of (source_kind x) (source_key x) in
      elim (reconcile_inventory-cases errors flux world x s) [
        | inl (missing, same) ↦ inl (ap (λ r. stored r.0 key) same)
        | inr (w, c, names, same) ↦
            let fill = fill_for flux {E = E} x w c in
            subst
              (λ k.
                (stored (reconcile_inventory errors flux world x s).0 k ≡ stored s k)
                ⊎ IsFilled x (stored s k) (stored (reconcile_inventory errors flux world x s).0 k))
              (inventory_for-inventory_of x)
              (elim (lawful.kept_or_set (inventory_for x) fill s) [
                | inl kept ↦ inl (ap (λ t. stored t (inventory_key (inventory_for x))) same ∙ kept)
                | inr (after, filled, is_set) ↦ inr (
                  w,
                  c,
                  after,
                  names,
                  filled,
                  ap (λ t. stored t (inventory_key (inventory_for x))) same ∙ is_set,
                )
              ])
      ]

  -- The inventory for the object of any kind and any key, after any reconciliation.
  pub reconcile_inventory-at :
      (x : Source) (s : S) (kind : InventoryKind) (key : ObjectKey)
      → let s' = (reconcile_inventory errors flux world x s).0 in
        (stored s' (inventory_of kind key) ≡ stored s (inventory_of kind key))
        ⊎ ((kind ≡ source_kind x)
            × (key ≡ source_key x)
            × IsFilled x (stored s (inventory_of kind key)) (stored s' (inventory_of kind key)))
  reconcile_inventory-at x s kind key =
      let own = inventory_of (source_kind x) (source_key x) in
      elim (Bool-discrete (same_key (inventory_of kind key) own) true) [
        | no differ ↦ inl (
            reconcile_inventory-Frames x s (inventory_of kind key)
              (λ same. differ ((same_key-IsKeyTest (inventory_of kind key) own).1 same)))
        | yes equal ↦
            let same = (same_key-IsKeyTest (inventory_of kind key) own).0 equal in
            let (same_kind, same_source) =
              inventory_of_injective kind (source_kind x) key (source_key x) same in
            let s' = (reconcile_inventory errors flux world x s).0 in
            subst
              (λ k.
                (stored s' k ≡ stored s k)
                ⊎ ((kind ≡ source_kind x)
                    × (key ≡ source_key x)
                    × IsFilled x (stored s k) (stored s' k)))
              (sym same)
              (elim (reconcile_inventory-own x s) [
                | inl kept ↦ inl kept
                | inr filled ↦ inr (same_kind, same_source, filled)
              ])
      ]
