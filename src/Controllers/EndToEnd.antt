-- ===== src/Controllers/EndToEnd.antt =====
-- From the reconciliation of a workload to the inventories of the objects that it renders, through all
-- the controllers of controllers/ that have a part in it.
use dockyards_flux.Base.{none, some, Option, ◌≡◌, ◌≢◌, ap, ◌∙◌, string_dec}
use dockyards_flux.Base.StringMap
use dockyards_flux.Base.Outcome.{ok, done}
use dockyards_flux.Base.View.{View}
use dockyards_flux.Api.Constants.{label_cluster_name, label_workload_name}
use dockyards_flux.Api.Objects.{ObjectKey, Cluster, Workload}
use dockyards_flux.Api.Errors.{ApiErrors, IsLawfulErrors}
use dockyards_flux.Api.Client.{GroupVersions}
use dockyards_flux.Api.Cue.{Cue}
use dockyards_flux.Api.Conditions.{Conditions}
use dockyards_flux.Api.Flux.{WorkloadInventory, FluxVersions}
use dockyards_flux.Api.Rendering.{
  Rendering, WorkloadWorld, Unstructured, ResourceKey, resource_key, SetsSpec,
}
use dockyards_flux.Api.World.{World, OperationResult, IsLawfulCreateOrPatch}
use dockyards_flux.Controllers.Inventory.Writing.{inventory_key}
use dockyards_flux.Controllers.Sources.{
  Source, source_meta, source_kind, source_key, inventory_of, Names, IsReport, reconcile_inventory,
  write_inventory,
}
use dockyards_flux.Controllers.Sources.Reports.{fill_for-IsReport}
use dockyards_flux.Controllers.Provenance.{start}
use dockyards_flux.Controllers.Convergence.{Trace-write_inventory}
use dockyards_flux.Controllers.Interleaving.{Run}
use dockyards_flux.Controllers.Workload.Reconciling.{reconcile_workload}
use dockyards_flux.Controllers.Workload.Rendered.{apply_fields_complete}
use dockyards_flux.Controllers.Workload.Ready.{IsReconciled}
use dockyards_flux.Controllers.Workload.Marked.{IsMarked, apply_fields-IsMarked}
use dockyards_flux.Controllers.Workload.Kept.{PatchesOnly, workload_resource}
use dockyards_flux.Controllers.Workload.Refined.{reconcile_workload-rendered}
use mathlib.Core.List.{Memᴰ}

module _ {S E : Type 0} (errors : ApiErrors E) (flux : FluxVersions) (world : World S E)
    (stored : S → ObjectKey → Option WorkloadInventory)
    (lawful : IsLawfulCreateOrPatch inventory_key stored world.create_or_patch_inventory) where
  -- What the workload controller marked carries the labels that the inventory controllers look for.
  IsMarked-Names :
      (gv : GroupVersions) (w : Workload) (cluster : Cluster) (y : Unstructured) (x : Source)
      → source_meta x ≡ y.meta
      → IsMarked gv w cluster y
      → Names x w.name cluster.name
  unfolding StringMap.lookup string_dec
  IsMarked-Names gv w cluster y x same (owned, labelled) =
      let labels = ap (λ m. m.labels) same ∙ labelled in
      (
        ap (λ m. StringMap.lookup label_workload_name m) labels,
        ap (λ m. StringMap.lookup label_cluster_name m) labels,
      )

  -- Once the inventory of a labelled object was written without error, it is a report on the object,
  -- also after any reconciliations for other objects.
  pub write_inventory-IsReport :
      (x : Source) (workload cluster : _) (s s' : S) (op : OperationResult)
      → Names x workload cluster
      → (write_inventory errors flux world x workload cluster s).1 ≡ done op
      → Run errors flux world stored lawful
          (source_kind x)
          (source_key x)
          (reconcile_inventory errors flux world x s).0
          s'
      → (inventory : WorkloadInventory) × (stored s' (inventory_of (source_kind x) (source_key x))
          ≡ some inventory)
        × IsReport flux x workload cluster inventory
  write_inventory-IsReport x workload cluster s s' op names written run =
      let (after, filled, is_set) =
        Trace-write_inventory errors flux world stored lawful x workload cluster (λ y t. y ≡ x) s s
          s' op (start s) names written run in
      (after, is_set, fill_for-IsReport flux x workload cluster _ after filled)

-- The workload controller acts on objects of any type, `A`, and the inventory controllers on
-- inventories, `S`.
module _ {A S E : Type 0} (errors : ApiErrors E) (gv : GroupVersions) (conditions : Conditions E)
    (cue : Cue E) (rendering : Rendering cue) (resources : WorkloadWorld A E)
    (objects : A → View ResourceKey Unstructured)
    (lawful_objects : IsLawfulCreateOrPatch resource_key objects resources.create_or_patch)
    (sets : SetsSpec rendering) (patches : PatchesOnly gv resources objects)
    (lawful_errors : IsLawfulErrors errors) (flux : FluxVersions) (world : World S E)
    (stored : S → ObjectKey → Option WorkloadInventory)
    (lawful : IsLawfulCreateOrPatch inventory_key stored world.create_or_patch_inventory) where
  open cue use {Value}

  -- Where a workload is found and its template is rendered, and a field of that decodes to an object
  -- other than the workload, which one of the inventory controllers then reads and writes an inventory
  -- for without error, that inventory tells the workload and the cluster, is owned by the object alone
  -- and selects what the object makes, also after any reconciliations for other objects: kustomizations,
  -- Helm releases, Helm repositories and OCI repositories alike.
  pub reconcile_workload-IsReport :
      (key : ObjectKey) (a mid : A)
      → (resources.get_workload key a).1 ≡ none
      → resources.new_workload_helper (resources.get_workload key a).0 a ≡ none
      → (r : IsReconciled errors gv conditions cue rendering resources
          (resources.get_workload key a).0
          a
          mid)
      → (v : Value) (u : Unstructured) → Memᴰ v r.rendered.values
      → rendering.decode_object v ≡ ok u
      → resource_key u ≢ workload_resource gv (resources.get_workload key a).0
      → (x : Source)
      → ((y : Unstructured)
          → objects
              (reconcile_workload errors gv conditions cue rendering resources key a).0
              (resource_key u)
            ≡ some y
          → source_meta x ≡ y.meta)
      → (s s' : S) (op : OperationResult)
      → (write_inventory errors flux world x
          (resources.get_workload key a).0.name
          r.cluster.name
          s).1
        ≡ done op
      → Run errors flux world stored lawful
          (source_kind x)
          (source_key x)
          (reconcile_inventory errors flux world x s).0
          s'
      → (inventory : WorkloadInventory) × (stored s' (inventory_of (source_kind x) (source_key x))
          ≡ some inventory)
        × IsReport flux x (resources.get_workload key a).0.name r.cluster.name inventory
  reconcile_workload-IsReport key a mid got made r v u there decoded ne x read s s' op written run =
      let w = (resources.get_workload key a).0 in
      let (y, here, marked) =
        apply_fields-IsMarked errors gv conditions cue rendering resources w r.cluster objects
          lawful_objects sets r.rendered.values v u a mid
          (apply_fields_complete errors gv conditions cue rendering resources w r.cluster
            r.rendered.values a mid r.rendered.applied_all)
          there decoded in
      let still =
        reconcile_workload-rendered errors gv conditions cue rendering resources objects
          lawful_objects sets patches lawful_errors key a mid got made r (resource_key u) ne in
      write_inventory-IsReport errors flux world stored lawful x w.name r.cluster.name s s' op
        (IsMarked-Names errors flux world stored lawful gv w r.cluster y x (read y (still ∙ here))
          marked)
        written run
