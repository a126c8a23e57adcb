-- ===== src/Webhooks/Workload/Reference.antt =====
-- webhooks/workload_webhook.go: `validateClusterReference` and the checks of labels before it.
pub mod Metadata
use dockyards_flux.Base.{
  String, Bool, true, false, Option, none, some, List, [], ◌∷◌, ◌++◌, ◌==◌, ◌/=◌, ◌&&◌, not,
  if◌then◌else◌, is_some, is_empty, map,
}
use dockyards_flux.Base.Outcome.{Result, ok, err, error_of}
use dockyards_flux.Base.GoPath
use dockyards_flux.Base.StringMap
use dockyards_flux.Api.Constants.{label_organization_name, label_cluster_name}
use dockyards_flux.Api.Objects.{
  Bytes, ObjectKey, OwnerReference, TypedObjectReference, Cluster, WorkloadTemplate, Workload,
  RuntimeObject, workload, workload_template, other,
}
use dockyards_flux.Api.Errors.{
  ApiErrors, FieldError, required, invalid, forbidden, not_found, internal_error, text,
  AdmissionError, bad_request, passed_on, Answer, reply, crash,
}
use dockyards_flux.Api.Client.{Reader, GroupVersions}
use dockyards_flux.Api.Cue.{Cue}
use dockyards_flux.Webhooks.Workload.{
  find_cluster_owner_reference, cluster_label, organization_label, invalid_workload, get_cluster,
}

abbrev pub label_path : String → List String
label_path label = "metadata" ∷ "labels" ∷ label ∷ []

abbrev pub owners_path : List String
owners_path = "metadata" ∷ "ownerReferences" ∷ []

-- one of the two checks on mandatory labels at the start of `validate`
abbrev pub missing_label : {E : Type 0} → String → String → List (FieldError E)
missing_label label value =
    if value == "" then required (label_path label) "mandatory label" ∷ [] else []

abbrev pub label_errors : {E : Type 0} → Workload → List (FieldError E)
label_errors w =
    missing_label label_organization_name (organization_label w)
    ++ missing_label label_cluster_name (cluster_label w)

module _ {E : Type 0} (errors : ApiErrors E) (gv : GroupVersions) (reader : Reader E) where
  -- the part of `validateClusterReference` after the cluster was found
  found_cluster_errors : Workload → Option OwnerReference → Cluster → List (FieldError E)
  found_cluster_errors w owner cluster =
      let clusters = StringMap.get label_organization_name cluster.labels in
      let mismatch : List (FieldError E) =
        if clusters /= "" && organization_label w /= clusters
        then invalid (label_path label_organization_name) (text (organization_label w))
            "organization label must match cluster owner organization"
          ∷ []
        else [] in
      elim owner [
        | none ↦ mismatch
        | some r ↦
            if r.uid /= cluster.uid
            then invalid owners_path (text r.uid)
                "cluster owner reference UID does not match cluster"
              ∷ []
            else mismatch
      ]

  -- the part of `validateClusterReference` after the cluster was asked for
  cluster_errors : Workload → Option OwnerReference → Result E Cluster → List (FieldError E)
  unfolding found_cluster_errors
  cluster_errors w owner result =
      if errors.is_not_found (error_of result)
      then not_found (label_path label_cluster_name) (cluster_label w) ∷ []
      else elim result [
        | err e ↦ internal_error (label_path label_cluster_name) (some e) ∷ []
        | ok cluster ↦ found_cluster_errors w owner cluster
      ]

  reference_errors : Workload → Option OwnerReference → List (FieldError E)
  unfolding cluster_errors
  reference_errors w owner =
      let asked = cluster_errors w owner (get_cluster reader w.namespace (cluster_label w)) in
      elim owner [
        | none ↦ asked
        | some r ↦
            if r.name /= cluster_label w
            then invalid owners_path (text r.name)
                "cluster owner reference must match cluster label"
              ∷ []
            else asked
      ]

  -- the errors that `validateClusterReference` appends
  unfoldable pub validate_cluster_reference : Workload → List (FieldError E)
  unfolding reference_errors
  validate_cluster_reference w =
      reference_errors w (find_cluster_owner_reference gv w.owner_references)

  -- `allErrors` before the template is looked at
  unfoldable pub metadata_errors : Workload → List (FieldError E)
  metadata_errors w =
      let labels : List (FieldError E) = label_errors w in
      if is_empty labels then labels ++ validate_cluster_reference w else labels
