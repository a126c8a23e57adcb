-- ===== src/Controllers/Workload/Requeue.antt =====
-- Which workloads `clusterToWorkloads` and `workloadTemplateToWorkloads` of
-- controllers/dockyardsworkload_controller.go request.
use mathlib.Core.List.{Memᴰ, append-nil, append_assoc}
use dockyards_flux.Base.{
  refl, Mem-map, String, Option, none, some, List, [], ◌∷◌, ◌++◌, ◌≡◌, ◌≢◌, arith, ap, sym, ◌∙◌,
  map, Option-cases, inl, inr, subst,
}
use dockyards_flux.Base.Outcome.{done}
use dockyards_flux.Base.StringMap
use dockyards_flux.Base.StringMap.{StringMap}
use dockyards_flux.Api.Constants.{label_cluster_name}
use dockyards_flux.Api.Objects.{
  ObjectKey, Cluster, Workload, WorkloadTemplate, TypedObjectReference,
}
use dockyards_flux.Api.Errors.{ApiErrors}
use dockyards_flux.Api.Client.{Reader, IsLawfulReader, GroupVersions}
use dockyards_flux.Api.World.{object_key}
use dockyards_flux.Webhooks.Workload.Reference.{metadata_errors}
use dockyards_flux.Webhooks.Workload.Reference.Metadata.{cluster_key, IsValidMetadata-sound}
use dockyards_flux.Controllers.Workload.Watching.{
  watched_cluster, watched_template, Lister, append_requests, requests, template_reference,
  workload_template_to_workloads, cluster_to_workloads,
}

append_requests-map :
    (result : List ObjectKey) (ws : List Workload)
    → append_requests result ws ≡ result ++ map (λ (w : Workload). object_key w.meta) ws
append_requests-map result [] = sym (append-nil result)
append_requests-map result (w ∷ ws) =
    append_requests-map (result ++ object_key w.meta ∷ []) ws
    ∙ append_assoc result (object_key w.meta ∷ []) (map (λ (x : Workload). object_key x.meta) ws)

requests-nil :
    {E : Type 0} (ws : List Workload) (e : Option E) (keys : List ObjectKey)
    → requests (ws, e) ≡ done keys
    → e ≡ none
requests-nil ws none keys h = refl
requests-nil ws (some e) keys h = ground arith

requests-done :
    {E : Type 0} (ws : List Workload) (e : Option E) (keys : List ObjectKey) (w : Workload)
    → requests (ws, e) ≡ done keys
    → Memᴰ w ws
    → Memᴰ (object_key w.meta) keys
requests-done ws none keys w h m =
    let same : append_requests [] ws ≡ keys = cc in
    subst (λ ks. Memᴰ (object_key w.meta) ks) (sym (append_requests-map [] ws) ∙ same)
      (Mem-map (λ (x : Workload). object_key x.meta) w ws m)
requests-done ws (some e) keys w h m = ground arith

-- The list of all workloads in the cluster, and what List documents of it: without an error it gives
-- every workload that matches.
pub record IsLawfulLister {S E : Type 0} (workloads : S → List Workload)
    (refers : TypedObjectReference → Workload → Type 0) (lister : Lister S E) : Type 0 where
  pub by_cluster :
      (name namespace : String) (s : S) (w : Workload)
      → Memᴰ w (workloads s)
      → StringMap.lookup label_cluster_name w.labels ≡ some name
      → w.namespace ≡ namespace
      → (lister.list_by_cluster name namespace s).1 ≡ none
      → Memᴰ w (lister.list_by_cluster name namespace s).0
  pub by_reference :
      (ref : TypedObjectReference) (s : S) (w : Workload)
      → Memᴰ w (workloads s)
      → refers ref w
      → (lister.list_by_reference ref s).1 ≡ none
      → Memᴰ w (lister.list_by_reference ref s).0

get-eq-lookup :
    (k : String) (m : StringMap)
    → StringMap.get k m ≢ ""
    → StringMap.lookup k m ≡ some (StringMap.get k m)
unfolding StringMap.get
get-eq-lookup k m h = elim (Option-cases (StringMap.lookup k m)) [
  | inl absent ↦ ground (arith, absent)
  | inr (v, present) ↦ ground (arith, present)
]

module _ {S E : Type 0} (workloads : S → List Workload)
    (refers : TypedObjectReference → Workload → Type 0) (lister : Lister S E)
    (lawful : IsLawfulLister workloads refers lister) where
  -- A change of a cluster requests every workload in its namespace that has its name as the cluster
  -- label, unless the list of workloads cannot be read.
  pub cluster_to_workloads-Mem :
      (c : Cluster) (s : S) (keys : List ObjectKey) (w : Workload)
      → cluster_to_workloads lister (watched_cluster c) s ≡ done keys
      → Memᴰ w (workloads s)
      → StringMap.lookup label_cluster_name w.labels ≡ some c.name
      → w.namespace ≡ c.namespace
      → Memᴰ (object_key w.meta) keys
  unfolding cluster_to_workloads
  cluster_to_workloads-Mem c s keys w h there labelled here =
      let (ws, e) = lister.list_by_cluster c.name c.namespace s in
      requests-done ws e keys w h
        (lawful.by_cluster c.name c.namespace s w there labelled here (requests-nil ws e keys h))

  -- A change of a template requests every workload that refers, by the index, to the kind, the name and
  -- the namespace of the template, unless the list of workloads cannot be read.
  pub workload_template_to_workloads-Mem :
      (t : WorkloadTemplate) (s : S) (keys : List ObjectKey) (w : Workload)
      → workload_template_to_workloads lister (watched_template t) s ≡ done keys
      → Memᴰ w (workloads s)
      → refers
          (record {
            api_group = none;
            kind = "WorkloadTemplate";
            name = t.name;
            namespace = some t.namespace;
          })
          w
      → Memᴰ (object_key w.meta) keys
  unfolding workload_template_to_workloads
  workload_template_to_workloads-Mem t s keys w h there referring =
      let (ws, e) = lister.list_by_reference (template_reference t) s in
      requests-done ws e keys w h
        (lawful.by_reference (template_reference t) s w there referring (requests-nil ws e keys h))

  -- A workload with metadata that the webhook accepts is requested whenever its cluster changes, unless
  -- the list of workloads cannot be read.
  pub cluster_to_workloads-accepted :
      (errors : ApiErrors E) (gv : GroupVersions) (reader : Reader E) (w : Workload) (s : S)
      (keys : List ObjectKey)
      → IsLawfulReader reader
      → metadata_errors errors gv reader w ≡ []
      → Memᴰ w (workloads s)
      → cluster_to_workloads lister (watched_cluster (reader.get_cluster (cluster_key w)).0) s
        ≡ done keys
      → Memᴰ (object_key w.meta) keys
  cluster_to_workloads-accepted errors gv reader w s keys reads fine there h =
      let valid = IsValidMetadata-sound errors gv reader w fine in
      let c = (reader.get_cluster (cluster_key w)).0 in
      let found : (reader.get_cluster (cluster_key w)).1 ≡ none = ap (λ x. x.1) valid.found in
      cluster_to_workloads-Mem c s keys w h there
        (get-eq-lookup label_cluster_name w.labels valid.cluster_set
          ∙ ap some (sym (reads.get_cluster-name (cluster_key w) found)))
        (sym (reads.get_cluster-namespace (cluster_key w) found))
