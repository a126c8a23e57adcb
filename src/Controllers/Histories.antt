-- ===== src/Controllers/Histories.antt =====
-- `Reconcile` of the three controllers of controllers/ that write inventories, whole, in any order.
use dockyards_flux.Base.{Option, ◌≡◌, ◌⊎◌, subst}
use dockyards_flux.Api.Objects.{ObjectKey}
use dockyards_flux.Api.Errors.{ApiErrors, IsLawfulErrors}
use dockyards_flux.Api.Flux.{WorkloadInventory, FluxVersions}
use dockyards_flux.Api.World.{World, IsLawfulCreateOrPatch}
use dockyards_flux.Controllers.Inventory.Writing.{inventory_key}
use dockyards_flux.Controllers.InventoryNames.{InventoryKind}
use dockyards_flux.Controllers.Sources.{inventory_of}
use dockyards_flux.Controllers.Provenance.{
  Trace, start, elsewhere, Trace_append, IsReported, Trace-IsReported,
}
use dockyards_flux.Controllers.Reading.{
  Request, KeepsInventories, reconcile, IsRead, Reads, reconcile-Reads,
}

module _ {S E : Type 0} (errors : ApiErrors E) (flux : FluxVersions) (world : World S E)
    (stored : S → ObjectKey → Option WorkloadInventory)
    (lawful : IsLawfulCreateOrPatch inventory_key stored world.create_or_patch_inventory)
    (keeps : KeepsInventories world stored) (lawful_errors : IsLawfulErrors errors) where
  -- Requests to the controllers one after the other, whatever they return, and between them anything
  -- that leaves the inventories alone, such as the other controllers.
  pub data History : S → S → Type 0 where
    nothing : (s : S) → History s s
    handled :
        (request : Request) (s mid s' : S)
        → History s mid
        → (reconcile errors flux world stored lawful keeps lawful_errors request mid).0 ≡ s'
        → History s s'
    outside :
        (s mid s' : S)
        → History s mid
        → ((k : ObjectKey) → stored s' k ≡ stored mid k)
        → History s s'

  pub History-Trace :
      (s s' : S)
      → History s s'
      → Trace errors flux world stored lawful
          (IsRead errors flux world stored lawful keeps lawful_errors)
          s
          s'
  History-Trace _ _ (nothing s) = start s
  History-Trace _ _ (handled request s mid s' before e) =
      subst (λ t. Reads errors flux world stored lawful keeps lawful_errors s t) e
        (Trace_append errors flux world stored lawful
          (IsRead errors flux world stored lawful keeps lawful_errors) s mid _
          (History-Trace s mid before)
          (reconcile-Reads errors flux world stored lawful keeps lawful_errors request mid))
  History-Trace _ _ (outside s mid s' before same) =
      elsewhere s mid s' (History-Trace s mid before) same

  -- Whatever requests the kustomization, Helm release and source repository controllers handle, in
  -- whatever order and with whatever results, and whatever else happens that leaves the inventories
  -- alone, the inventory for an object is afterwards as it was at the beginning, or it is a report on an
  -- object of that kind, name and namespace that a Get returned on the way there and that was not being
  -- deleted: the workload and the cluster are those in its labels, it is the only owner, and the selector
  -- finds what it makes.
  pub History-IsReported :
      (s s' : S) (kind : InventoryKind) (key : ObjectKey)
      → History s s'
      → (stored s' (inventory_of kind key) ≡ stored s (inventory_of kind key))
        ⊎ IsReported errors flux world stored lawful
            (IsRead errors flux world stored lawful keeps lawful_errors)
            s
            kind
            key
            (stored s' (inventory_of kind key))
  History-IsReported s s' kind key history =
      Trace-IsReported errors flux world stored lawful
        (IsRead errors flux world stored lawful keeps lawful_errors) s s' kind key
        (History-Trace s s' history)
