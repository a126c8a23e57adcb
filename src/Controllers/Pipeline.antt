-- ===== src/Controllers/Pipeline.antt =====
-- From a workload to its inventory: what the workload controller renders, the kustomization controller
-- of controllers/ reports, and the other inventory controllers leave alone.
use dockyards_flux.Base.{List, Option, some, [], ◌∷◌, ◌≡◌, ap, ◌∙◌, string_dec}
use dockyards_flux.Base.StringMap
use dockyards_flux.Base.Outcome.{ok, done}
use dockyards_flux.Api.Constants.{label_cluster_name, label_workload_name, kustomization_kind}
use dockyards_flux.Api.Objects.{ObjectKey, Cluster, Workload}
use dockyards_flux.Api.Errors.{ApiErrors}
use dockyards_flux.Api.Client.{GroupVersions}
use dockyards_flux.Api.Flux.{Kustomization, WorkloadInventory, FluxVersions}
use dockyards_flux.Api.Rendering.{
  Rendering, WorkloadWorld, Unstructured, ResourceKey, resource_key, SetsSpec,
}
use dockyards_flux.Api.World.{World, object_key, IsLawfulCreateOrPatch}
use dockyards_flux.Controllers.Inventory.{owner_reference}
use dockyards_flux.Controllers.Inventory.Writing.{inventory_key}
use dockyards_flux.Controllers.InventoryNames.{kustomization}
use dockyards_flux.Controllers.Sources.{inventory_of}
use dockyards_flux.Controllers.Interleaving.{Run, Run-frame}
use dockyards_flux.Controllers.Kustomization.{reconcile_kustomization_inventory}
use dockyards_flux.Controllers.Kustomization.Mirroring.{
  kustomization_selector, reconcile_kustomization_inventory-IsWritten,
}
use dockyards_flux.Controllers.Workload.{apply_fields, reconciled}
use dockyards_flux.Controllers.Workload.Marked.{IsMarked, apply_fields-IsMarked}
use dockyards_flux.Api.Cue.{Cue}
use dockyards_flux.Api.Conditions.{Conditions}
use dockyards_flux.Base.View.{View}
use mathlib.Core.List.{Memᴰ}

-- The inventory tells which workload and cluster it is for, is owned by the kustomization alone, and
-- selects what the kustomization made.
pub record Reports (flux : FluxVersions) (w : Workload) (cluster : Cluster) (k : Kustomization)
    (inventory : WorkloadInventory) : Type 0 where
  pub of_workload : StringMap.lookup label_workload_name inventory.labels ≡ some w.name
  pub of_cluster : StringMap.lookup label_cluster_name inventory.labels ≡ some cluster.name
  pub owned :
      inventory.owner_references
      ≡ owner_reference flux.kustomize_group_version kustomization_kind k.meta ∷ []
  pub selects :
      inventory.selector
      ≡ record { match_labels = kustomization_selector k; match_expressions = [] }

module _ {S E : Type 0} (errors : ApiErrors E) (flux : FluxVersions) (world : World S E)
    (stored : S → ObjectKey → Option WorkloadInventory)
    (lawful : IsLawfulCreateOrPatch inventory_key stored world.create_or_patch_inventory)
    (gv : GroupVersions) (w : Workload) (cluster : Cluster) where
  marked_labels :
      (x : Unstructured) (k : Kustomization)
      → k.meta ≡ x.meta
      → IsMarked gv w cluster x
      → (StringMap.lookup label_workload_name k.labels ≡ some w.name)
        × (StringMap.lookup label_cluster_name k.labels ≡ some cluster.name)
  unfolding StringMap.lookup string_dec
  marked_labels x k same (owned, labelled) =
      let labels = ap (λ m. m.labels) same ∙ labelled in
      (
        ap (λ m. StringMap.lookup label_workload_name m) labels,
        ap (λ m. StringMap.lookup label_cluster_name m) labels,
      )

  -- Once the inventory of a marked kustomization was reconciled.
  marked-Reports :
      (x : Unstructured) (k : Kustomization) (s s' s'' : S)
      → k.meta ≡ x.meta
      → IsMarked gv w cluster x
      → reconcile_kustomization_inventory errors flux world k s ≡ (s', done tt)
      → Run errors flux world stored lawful kustomization (object_key k.meta) s' s''
      → (inventory : WorkloadInventory) × (stored s''
            (inventory_of kustomization (object_key k.meta))
          ≡ some inventory)
        × Reports flux w cluster k inventory
  marked-Reports x k s s' s'' same marked h run =
      let (named, placed) = marked_labels x k same marked in
      let written =
        reconcile_kustomization_inventory-IsWritten errors flux world stored lawful k s s' w.name
          cluster.name named placed h in
      (
        written.after,
        Run-frame errors flux world stored lawful kustomization (object_key k.meta) s' s'' run
            ∙ written.is_stored,
        record {
          of_workload = written.mirrors.first_label;
          of_cluster = written.mirrors.second_label;
          owned = written.mirrors.owned;
          selects = written.mirrors.selected;
        },
      )

-- The workload controller acts on objects of any type, `A`, and the inventory controllers on
-- inventories, `S`.
module _ {A S E : Type 0} (errors : ApiErrors E) (gv : GroupVersions) (conditions : Conditions E)
    (cue : Cue E) (rendering : Rendering cue) (resources : WorkloadWorld A E) (w : Workload)
    (cluster : Cluster) (objects : A → View ResourceKey Unstructured)
    (lawful_objects : IsLawfulCreateOrPatch resource_key objects resources.create_or_patch)
    (sets : SetsSpec rendering) (flux : FluxVersions) (world : World S E)
    (stored : S → ObjectKey → Option WorkloadInventory)
    (lawful : IsLawfulCreateOrPatch inventory_key stored world.create_or_patch_inventory) where
  -- Where the workload controller has applied the fields of a template, and one of them decodes to an
  -- object that the kustomization controller then reads as a kustomization with its metadata and whose
  -- inventory it reconciles without error, that inventory names the workload and the cluster, is owned
  -- by the kustomization alone and selects its objects, also after any reconciliations for other
  -- objects.
  pub apply_fields-Reports :
      (vs : List cue.Value) (v : cue.Value) (u : Unstructured) (a a' : A) (k : Kustomization)
      (s s' s'' : S)
      → apply_fields errors gv conditions cue rendering resources w cluster vs a
        ≡ (a', done reconciled)
      → Memᴰ v vs
      → rendering.decode_object v ≡ ok u
      → ((x : Unstructured) → objects a' (resource_key u) ≡ some x → k.meta ≡ x.meta)
      → reconcile_kustomization_inventory errors flux world k s ≡ (s', done tt)
      → Run errors flux world stored lawful kustomization (object_key k.meta) s' s''
      → (inventory : WorkloadInventory) × (stored s''
            (inventory_of kustomization (object_key k.meta))
          ≡ some inventory)
        × Reports flux w cluster k inventory
  apply_fields-Reports vs v u a a' k s s' s'' applied there decoded read h run =
      let (x, here, marked) =
        apply_fields-IsMarked errors gv conditions cue rendering resources w cluster objects
          lawful_objects sets vs v u a a' applied there decoded in
      marked-Reports errors flux world stored lawful gv w cluster x k s s' s'' (read x here) marked
        h run
