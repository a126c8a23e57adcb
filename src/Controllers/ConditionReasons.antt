-- ===== src/Controllers/ConditionReasons.antt =====
-- controllers/condition_consts.go: the reasons of conditions that the controllers set.
use dockyards_flux.Base.{String}

abbrev pub waiting_for_cluster_ready_reason : String
waiting_for_cluster_ready_reason = "WaitingForClusterReady"

abbrev pub waiting_for_workload_template_reason : String
waiting_for_workload_template_reason = "WaitingForWorkloadTemplate"

abbrev pub incorrect_workload_template_type_reason : String
incorrect_workload_template_type_reason = "IncorrectWorkloadTemplateType"

abbrev pub load_instance_failed_reason : String
load_instance_failed_reason = "LoadInstanceFailed"

abbrev pub build_instance_failed_reason : String
build_instance_failed_reason = "BuildInstanceFailed"

abbrev pub lookup_path_failed_reason : String
lookup_path_failed_reason = "LookupPathFailed"

abbrev pub fill_path_failed_reason : String
fill_path_failed_reason = "FillPathFailed"

abbrev pub validate_failed_reason : String
validate_failed_reason = "ValidateFailed"

abbrev pub fields_failed_reason : String
fields_failed_reason = "FieldsFailed"

abbrev pub decode_failed_reason : String
decode_failed_reason = "DecodeFailed"

abbrev pub reconcile_failed_reason : String
reconcile_failed_reason = "ReconcileFailed"

abbrev pub kustomization_reconciling_reason : String
kustomization_reconciling_reason = "KustomizationReconciling"

abbrev pub helm_release_reconciling_reason : String
helm_release_reconciling_reason = "HelmReleaseReconciling"
