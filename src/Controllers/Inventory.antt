-- ===== src/Controllers/Inventory.antt =====
-- What the inventory controllers in controllers/ have in common: the callbacks that fill a
-- WorkloadInventory, and the results of a reconciliation.
pub mod Callback
pub mod Writing
pub mod Errors
use dockyards_flux.Base.{String, Option, none, some, List, [], ◌∷◌}
use dockyards_flux.Base.Outcome.{Outcome, done, failed, panicked, ◌>>=◌}
use dockyards_flux.Base.StringMap
use dockyards_flux.Base.StringMap.{StringMap, Entries}
use dockyards_flux.Api.Objects.{ObjectMeta, OwnerReference}
use dockyards_flux.Api.World.{OperationResult}
use dockyards_flux.Api.Flux.{WorkloadInventory, LabelSelector}

-- A reconciliation gives the next state and an error; `ctrl.Result` is empty throughout.
abbrev pub Reconciled : (S E : Type 0) → Type 0
Reconciled S E = S × Outcome E (Unit {0})

-- `return ctrl.Result{}, err`
abbrev pub return_error : {S E : Type 0} → Option E → S → Reconciled S E
return_error none s = (s, done tt)
return_error (some e) s = (s, failed e)

-- `if err != nil { return ctrl.Result{}, err }` after a CreateOrPatch
abbrev pub return_operation : {S E : Type 0} → S × Outcome E OperationResult → Reconciled S E
return_operation (s, done op) = (s, done tt)
return_operation (s, failed e) = (s, failed e)
return_operation (s, panicked) = (s, panicked)

-- The inventory before CreateOrPatch: a name and a namespace.
abbrev pub new_inventory : String → String → WorkloadInventory
new_inventory name namespace = record {
  meta = record {
    name = name;
    namespace = namespace;
    uid = "";
    labels = none;
    owner_references = [];
    deletion_timestamp = none;
  };
  selector = record { match_labels = []; match_expressions = [] };
  urls = [];
}

-- an owner reference with the four fields that the controllers set
abbrev pub owner_reference : String → String → ObjectMeta → OwnerReference
owner_reference api_version kind owner = record {
  api_version = api_version;
  kind = kind;
  name = owner.name;
  uid = owner.uid;
  block_owner_deletion = none;
  controller = none;
}

-- The callback of all four: the owner is replaced, the labels are set one after the other in a map
-- that is made if there is none, and the selector is replaced.
unfoldable pub fill_inventory :
    {E : Type 0}
    → OwnerReference
    → String × String
    → String × String
    → Entries
    → WorkloadInventory
    → Outcome E WorkloadInventory
fill_inventory owner (k, v) (k', v') selector inventory =
    StringMap.set k v (StringMap.make_if_nil inventory.labels) >>= λ labels.
    StringMap.set k' v' labels >>= λ labels'. done (record inventory {
      meta = record inventory.meta { owner_references = owner ∷ []; labels = labels' };
      selector = record { match_labels = selector; match_expressions = [] };
    })
