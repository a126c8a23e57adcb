-- ===== src/Controllers/SourceRepository/Mirroring.antt =====
-- The inventories that controllers/sourcerepository_controller.go writes.
use dockyards_flux.Base.{
  refl, String, true, false, Option, none, some, ◌≡◌, ◌≢◌, ◌⊎◌, inl, inr, arith, Option-cases,
  Bool-cases, sym, ◌∙◌,
}
use dockyards_flux.Base.Outcome.{done, Outcome-cases}
use dockyards_flux.Base.StringMap
use dockyards_flux.Api.Constants.{
  label_cluster_name, label_workload_name, helm_repository_kind, oci_repository_kind,
}
use dockyards_flux.Api.Objects.{ObjectKey, is_zero}
use dockyards_flux.Api.Errors.{ApiErrors, IsLawfulErrors}
use dockyards_flux.Api.Flux.{Repository, WorkloadInventory, FluxVersions}
use dockyards_flux.Api.World.{World, IsLawfulCreateOrPatch}
use dockyards_flux.Controllers.Inventory.{owner_reference}
use dockyards_flux.Controllers.Inventory.Writing.{
  inventory_key, IsWritten, return_operation-IsWritten,
}
use dockyards_flux.Controllers.SourceRepository.{
  helm_repository_inventory, oci_repository_inventory, source_selector,
  fill_helm_repository_inventory, fill_oci_repository_inventory,
  reconcile_helm_repository_inventory, reconcile_oci_repository_inventory,
  reconcile_helm_repository, reconcile_oci_repository, reconcile_source_repository,
}

labels_ne : label_cluster_name ≢ label_workload_name
labels_ne e = cc

module _ {S E : Type 0} (errors : ApiErrors E) (flux : FluxVersions) (world : World S E)
    (stored : S → ObjectKey → Option WorkloadInventory)
    (lawful : IsLawfulCreateOrPatch inventory_key stored world.create_or_patch_inventory) where
  -- The repository has both labels.
  abbrev pub IsLabelled : Repository → String → String → Type 0
  IsLabelled r cluster_name workload_name =
      (StringMap.lookup label_cluster_name r.labels ≡ some cluster_name)
      × (StringMap.lookup label_workload_name r.labels ≡ some workload_name)

  -- The inventory of an object, owned by a repository of this kind, has been written.
  abbrev pub IsRepositoryWritten :
      WorkloadInventory → String → Repository → String → String → S → S → Type 0
  IsRepositoryWritten object kind r cluster_name workload_name =
      IsWritten stored object (owner_reference flux.source_group_version kind r.meta)
        label_cluster_name cluster_name label_workload_name workload_name (source_selector r)

  helm_written :
      (r : Repository) (s s' : S) (cluster_name workload_name : String)
      → IsLabelled r cluster_name workload_name
      → reconcile_helm_repository_inventory errors flux world r s ≡ (s', done tt)
      → IsRepositoryWritten
          (helm_repository_inventory r)
          helm_repository_kind
          r
          cluster_name
          workload_name
          s
          s'
  unfolding reconcile_helm_repository_inventory fill_helm_repository_inventory
  helm_written r s s' cluster_name workload_name (c, w) e =
      return_operation-IsWritten stored world.create_or_patch_inventory lawful _ label_cluster_name
        cluster_name label_workload_name workload_name (source_selector r) labels_ne
        (helm_repository_inventory r) s s' (ground (arith, c, w))

  oci_written :
      (r : Repository) (s s' : S) (cluster_name workload_name : String)
      → IsLabelled r cluster_name workload_name
      → reconcile_oci_repository_inventory errors flux world r s ≡ (s', done tt)
      → IsRepositoryWritten
          (oci_repository_inventory r)
          oci_repository_kind
          r
          cluster_name
          workload_name
          s
          s'
  unfolding reconcile_oci_repository_inventory fill_oci_repository_inventory
  oci_written r s s' cluster_name workload_name (c, w) e =
      return_operation-IsWritten stored world.create_or_patch_inventory lawful _ label_cluster_name
        cluster_name label_workload_name workload_name (source_selector r) labels_ne
        (oci_repository_inventory r) s s' (ground (arith, c, w))

  source_steps :
      (key : ObjectKey) (s s' : S)
      → reconcile_source_repository errors flux world key s ≡ (s', done tt)
      → (mid : S) × (reconcile_helm_repository errors flux world key s ≡ (mid, done tt))
        × (reconcile_oci_repository errors flux world key mid ≡ (s', done tt))
  unfolding reconcile_source_repository
  source_steps key s s' e =
      let result = reconcile_helm_repository errors flux world key s in
      elim (Outcome-cases result.1) [
        | inl (_, fine) ↦ (result.0, ground (arith, fine), ground (arith, fine))
        | inr (inl (cause, wrong)) ↦ ground (arith, wrong)
        | inr (inr wrong) ↦ ground (arith, wrong)
      ]

  -- The Helm repository of the key is there and not being deleted.
  abbrev pub IsLive : Repository × Option E → Type 0
  IsLive (r, e) = (e ≡ none) × (is_zero r.deletion_timestamp ≡ true)

  live_helm :
      (key : ObjectKey) (s : S)
      → IsLive (world.get_helm_repository key s)
      → IsLawfulErrors errors
      → reconcile_helm_repository errors flux world key s
        ≡ reconcile_helm_repository_inventory errors flux world
            (world.get_helm_repository key s).0
            s
  unfolding reconcile_helm_repository
  live_helm key s (found, live) lawful_errors =
      ground (arith, lawful_errors.ignore_not_found_lem none)

  live_oci :
      (key : ObjectKey) (s : S)
      → IsLive (world.get_oci_repository key s)
      → IsLawfulErrors errors
      → reconcile_oci_repository errors flux world key s
        ≡ reconcile_oci_repository_inventory errors flux world (world.get_oci_repository key s).0 s
  unfolding reconcile_oci_repository
  live_oci key s (found, live) lawful_errors =
      ground (arith, lawful_errors.ignore_not_found_lem none)

  -- There is nothing to report: the repository is not there, is being deleted, or lacks a label.
  abbrev pub IsIdle : Repository × Option E → Type 0
  IsIdle (r, e) =
      (e ≢ none)
      ⊎ (is_zero r.deletion_timestamp ≡ false)
      ⊎ (StringMap.lookup label_cluster_name r.labels ≡ none)
      ⊎ (StringMap.lookup label_workload_name r.labels ≡ none)

  -- The repository was handled: nothing was to be reported and nothing changed, or its inventory has
  -- been written.
  abbrev pub IsHandled :
      (Repository → WorkloadInventory) → String → Repository × Option E → S → S → Type 0
  IsHandled inventory kind (r, e) s s' =
      (IsIdle (r, e) × (s' ≡ s))
      ⊎ ((cluster_name : String) × (workload_name : String) × IsLive (r, e)
          × IsLabelled r cluster_name workload_name
          × IsRepositoryWritten (inventory r) kind r cluster_name workload_name s s')

  IsIdle-or_IsLive :
      (x : Repository × Option E)
      → IsIdle x
        ⊎ ((cluster_name : String) × (workload_name : String) × IsLive x
            × IsLabelled x.0 cluster_name workload_name)
  IsIdle-or_IsLive (r, some cause) = inl (inl λ e. ground (arith, e))
  IsIdle-or_IsLive (r, none) = elim (Bool-cases (is_zero r.deletion_timestamp)) [
    | inr deleted ↦ inl (inr (inl deleted))
    | inl live ↦ elim (Option-cases (StringMap.lookup label_cluster_name r.labels)) [
      | inl missing ↦ inl (inr (inr (inl missing)))
      | inr (c, cluster) ↦ elim (Option-cases (StringMap.lookup label_workload_name r.labels)) [
        | inl missing ↦ inl (inr (inr (inr missing)))
        | inr (w, workload) ↦ inr (c, w, (refl, live), (cluster, workload))
      ]
    ]
  ]

  helm_idle :
      IsLawfulErrors errors
      → (key : ObjectKey) (s s' : S) → IsIdle (world.get_helm_repository key s)
      → reconcile_helm_repository errors flux world key s ≡ (s', done tt)
      → s' ≡ s
  unfolding reconcile_helm_repository reconcile_helm_repository_inventory
  helm_idle lawful_errors key s s' idle h =
      ground (arith, idle, lawful_errors.ignore_not_found_lem (world.get_helm_repository key s).1)

  helm-IsHandled :
      IsLawfulErrors errors
      → (key : ObjectKey) (s s' : S)
      → reconcile_helm_repository errors flux world key s ≡ (s', done tt)
      → IsHandled helm_repository_inventory helm_repository_kind
          (world.get_helm_repository key s)
          s
          s'
  helm-IsHandled lawful_errors key s s' h =
      elim (IsIdle-or_IsLive (world.get_helm_repository key s)) [
        | inl idle ↦ inl (idle, helm_idle lawful_errors key s s' idle h)
        | inr (c, w, live, labelled) ↦ inr (
          c,
          w,
          live,
          labelled,
          helm_written (world.get_helm_repository key s).0 s s' c w labelled
              (sym (live_helm key s live lawful_errors) ∙ h),
        )
      ]

  oci_idle :
      IsLawfulErrors errors
      → (key : ObjectKey) (s s' : S) → IsIdle (world.get_oci_repository key s)
      → reconcile_oci_repository errors flux world key s ≡ (s', done tt)
      → s' ≡ s
  unfolding reconcile_oci_repository reconcile_oci_repository_inventory
  oci_idle lawful_errors key s s' idle h =
      ground (arith, idle, lawful_errors.ignore_not_found_lem (world.get_oci_repository key s).1)

  oci-IsHandled :
      IsLawfulErrors errors
      → (key : ObjectKey) (s s' : S)
      → reconcile_oci_repository errors flux world key s ≡ (s', done tt)
      → IsHandled oci_repository_inventory oci_repository_kind (world.get_oci_repository key s) s s'
  oci-IsHandled lawful_errors key s s' h =
      elim (IsIdle-or_IsLive (world.get_oci_repository key s)) [
        | inl idle ↦ inl (idle, oci_idle lawful_errors key s s' idle h)
        | inr (c, w, live, labelled) ↦ inr (
          c,
          w,
          live,
          labelled,
          oci_written (world.get_oci_repository key s).0 s s' c w labelled
              (sym (live_oci key s live lawful_errors) ∙ h),
        )
      ]

  -- A reconciliation that returns no error first handles the Helm repository of the key, then the OCI
  -- repository: each that is not found, is being deleted or lacks a label changes nothing, and each
  -- other has its inventory written, owned by it, with its labels and its selector.
  pub reconcile_source_repository-IsHandled :
      IsLawfulErrors errors
      → (key : ObjectKey) (s s' : S)
      → reconcile_source_repository errors flux world key s ≡ (s', done tt)
      → (mid : S) × IsHandled helm_repository_inventory helm_repository_kind
          (world.get_helm_repository key s)
          s
          mid
        × IsHandled oci_repository_inventory oci_repository_kind
            (world.get_oci_repository key mid)
            mid
            s'
  reconcile_source_repository-IsHandled lawful_errors key s s' e =
      let (mid, helm, oci) = source_steps key s s' e in
      (mid, helm-IsHandled lawful_errors key s mid helm, oci-IsHandled lawful_errors key mid s' oci)
