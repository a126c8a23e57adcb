-- ===== src/Api/Constants.antt =====
-- Names from dockyards-backend/api/v1alpha3 (cue.mod/gen), and the condition reasons of
-- controllers/condition_consts.go.
use dockyards_flux.Base.{String}

abbrev pub label_organization_name : String
label_organization_name = "dockyards.io/organization-name"

abbrev pub label_cluster_name : String
label_cluster_name = "dockyards.io/cluster-name"

abbrev pub label_workload_name : String
label_workload_name = "dockyards.io/workload-name"

abbrev pub cluster_kind : String
cluster_kind = "Cluster"

abbrev pub workload_kind : String
workload_kind = "Workload"

abbrev pub workload_template_kind : String
workload_template_kind = "WorkloadTemplate"

abbrev pub worktree_kind : String
worktree_kind = "Worktree"

abbrev pub kustomization_kind : String
kustomization_kind = "Kustomization"

abbrev pub helm_release_kind : String
helm_release_kind = "HelmRelease"

abbrev pub helm_repository_kind : String
helm_repository_kind = "HelmRepository"

abbrev pub oci_repository_kind : String
oci_repository_kind = "OCIRepository"

abbrev pub workload_template_type_cue : String
workload_template_type_cue = "dockyards.io/cue"

abbrev pub ready_condition : String
ready_condition = "Ready"

abbrev pub ready_reason : String
ready_reason = "Ready"

abbrev pub workload_template_reconciled_condition : String
workload_template_reconciled_condition = "WorkloadTemplateReconciled"

abbrev pub reconciling_condition : String
reconciling_condition = "Reconciling"
