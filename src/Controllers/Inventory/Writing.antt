-- ===== src/Controllers/Inventory/Writing.antt =====
-- An inventory controller's CreateOrPatch, over a client that does what it documents.
use dockyards_flux.Base.{String, Option, some, ◌≡◌, sym, ap, ◌∙◌, ◌≢◌, arith}
use dockyards_flux.Base.Outcome.{Outcome, done, failed, panicked}
use dockyards_flux.Base.StringMap.{Entries}
use dockyards_flux.Api.Objects.{ObjectKey, OwnerReference}
use dockyards_flux.Api.Flux.{WorkloadInventory}
use dockyards_flux.Api.World.{
  OperationResult, CreateOrPatch, object_key, stored_or, IsLawfulCreateOrPatch,
}
use dockyards_flux.Controllers.Inventory.{fill_inventory, return_operation}
use dockyards_flux.Controllers.Inventory.Callback.{
  Mirrors, fill_inventory-Mirrors, fill_inventory_total,
}

abbrev pub inventory_key : WorkloadInventory → ObjectKey
inventory_key inventory = object_key inventory.meta

-- From `s` to `s'` the inventory of `object` was made to mirror its owner, and no other was touched.
pub record IsWritten {S : Type 0} (stored : S → ObjectKey → Option WorkloadInventory)
    (object : WorkloadInventory) (owner : OwnerReference) (k v k' v' : String) (selector : Entries)
    (s s' : S) : Type 0 where
  pub after : WorkloadInventory
  pub is_stored : stored s' (inventory_key object) ≡ some after
  pub mirrors :
      Mirrors owner k v k' v' selector (stored_or object (stored s (inventory_key object))) after
  pub others_kept :
      (other : ObjectKey) → other ≢ inventory_key object → stored s' other ≡ stored s other

pub return_operation-done :
    {S E : Type 0} (result : S × Outcome E OperationResult) (s' : S)
    → return_operation result ≡ (s', done tt)
    → (op : OperationResult) × (result ≡ (s', done op))
return_operation-done (s, done op) s' e = (op, ground arith)
return_operation-done (s, failed x) s' e = ground arith
return_operation-done (s, panicked) s' e = ground arith

module _ {S E : Type 0} (stored : S → ObjectKey → Option WorkloadInventory)
    (create_or_patch : CreateOrPatch S E WorkloadInventory)
    (lawful : IsLawfulCreateOrPatch inventory_key stored create_or_patch) (owner : OwnerReference)
    (k v k' v' : String) (selector : Entries) where
  abbrev write : WorkloadInventory → S → S × Outcome E OperationResult
  write object s = create_or_patch object (fill_inventory owner (k, v) (k', v') selector) s

  pub write-IsWritten :
      k ≢ k'
      → (object : WorkloadInventory) (s s' : S) (op : OperationResult)
      → write object s ≡ (s', done op)
      → IsWritten stored object owner k v k' v' selector s s'
  write-IsWritten distinct object s s' op e =
      let (after, filled, is_stored) = lawful.result_stored object _ s s' op e in
      record {
        after = after;
        is_stored = is_stored;
        mirrors = fill_inventory-Mirrors owner k v k' v' selector distinct _ after filled;
        others_kept =
            λ other ne. sym (ap (λ x. stored x.0 other) e) ∙ lawful.others_kept object _ s other ne;
      }

  pub return_operation-IsWritten :
      k ≢ k'
      → (object : WorkloadInventory) (s s' : S) → return_operation (write object s) ≡ (s', done tt)
      → IsWritten stored object owner k v k' v' selector s s'
  return_operation-IsWritten distinct object s s' e =
      let (op, result) = return_operation-done (write object s) s' e in
      write-IsWritten distinct object s s' op result

  pub write-ne-panicked : (object : WorkloadInventory) (s : S) → (write object s).1 ≢ panicked
  write-ne-panicked object s e =
      let base = stored_or object (stored s (inventory_key object)) in
      let (after, filled) = fill_inventory_total {E = E} owner k v k' v' selector base in
      cc (filled, lawful.panics object _ s e)
