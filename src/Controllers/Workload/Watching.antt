-- ===== src/Controllers/Workload/Watching.antt =====
-- `workloadTemplateToWorkloads` and `clusterToWorkloads` of controllers/dockyardsworkload_controller.go.
use dockyards_flux.Base.{String, Option, none, some, List, [], ◌∷◌, ◌++◌}
use dockyards_flux.Base.Outcome.{Outcome, done, panicked}
use dockyards_flux.Api.Constants.{workload_template_kind}
use dockyards_flux.Api.Objects.{
  ObjectKey, Cluster, Workload, WorkloadTemplate, TypedObjectReference,
}

-- `client.Object`, by the types that the two functions assert
pub data Watched : Type 0 where
  watched_cluster : Cluster → Watched
  watched_template : WorkloadTemplate → Watched
  watched_other : Watched

-- List of workloads by the index of template references, and by the cluster label in a namespace.
pub record Lister (S E : Type 0) : Type 0 where
  pub list_by_reference : TypedObjectReference → S → List Workload × Option E
  pub list_by_cluster : String → String → S → List Workload × Option E

abbrev pub append_requests : List ObjectKey → List Workload → List ObjectKey
append_requests result [] = result
append_requests result (w ∷ ws) =
    append_requests (result ++ record { namespace = w.namespace; name = w.name } ∷ []) ws

-- an error of the List is a panic
abbrev pub requests : {E : Type 0} → List Workload × Option E → Outcome E (List ObjectKey)
requests (ws, some e) = panicked
requests (ws, none) = done (append_requests [] ws)

abbrev pub template_reference : WorkloadTemplate → TypedObjectReference
template_reference t = record {
  api_group = none;
  kind = workload_template_kind;
  name = t.name;
  namespace = some t.namespace;
}

module _ {S E : Type 0} (lister : Lister S E) where
  unfoldable pub workload_template_to_workloads : Watched → S → Outcome E (List ObjectKey)
  workload_template_to_workloads (watched_template t) s =
      requests (lister.list_by_reference (template_reference t) s)
  workload_template_to_workloads (watched_cluster c) s = done []
  workload_template_to_workloads watched_other s = done []

  unfoldable pub cluster_to_workloads : Watched → S → Outcome E (List ObjectKey)
  cluster_to_workloads (watched_cluster c) s =
      requests (lister.list_by_cluster c.name c.namespace s)
  cluster_to_workloads (watched_template t) s = done []
  cluster_to_workloads watched_other s = done []
