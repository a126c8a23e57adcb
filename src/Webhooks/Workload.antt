-- ===== src/Webhooks/Workload.antt =====
-- webhooks/workload_webhook.go: the defaulting and validating webhooks of workloads.
pub mod Ownership
pub mod Defaulting
pub mod Updates
pub mod Admission
pub mod Reference
pub mod Validate
use dockyards_flux.Base.{
  String, Bool, true, false, Option, none, some, List, [], ◌∷◌, ◌++◌, ◌==◌, ◌/=◌, ◌||◌,
  if◌then◌else◌, is_some, is_empty, map,
}
use dockyards_flux.Base.Outcome.{Result, ok, err, error_of}
use dockyards_flux.Base.GoPath
use dockyards_flux.Base.StringMap
use dockyards_flux.Api.Constants.{
  label_organization_name, label_cluster_name, cluster_kind, workload_kind,
}
use dockyards_flux.Api.Objects.{
  Bytes, ObjectKey, OwnerReference, TypedObjectReference, Cluster, WorkloadTemplate, Workload,
  RuntimeObject, workload, workload_template, other,
}
use dockyards_flux.Api.Errors.{
  ApiErrors, FieldError, required, invalid, forbidden, not_found, internal_error, text,
  AdmissionError, bad_request, not_valid, passed_on, Answer, reply, crash,
}
use dockyards_flux.Api.Client.{Reader, GroupVersions}
use dockyards_flux.Api.Cue.{Cue}

module _ (gv : GroupVersions) where
  -- the loop of `findClusterOwnerReference`
  unfoldable pub find_cluster_owner_reference : List OwnerReference → Option OwnerReference
  find_cluster_owner_reference [] = none
  find_cluster_owner_reference (r ∷ rs) =
      let rest = find_cluster_owner_reference rs in
      if r.kind /= cluster_kind then rest else elim (gv.parse_group_version r.api_version) [
        | none ↦ rest
        | some group ↦ if group /= gv.dockyards_group then rest else some r
      ]

  unfoldable pub has_cluster_owner_reference : Workload → Bool
  has_cluster_owner_reference w = is_some (find_cluster_owner_reference w.owner_references)

  abbrev pub default_api_group : Option TypedObjectReference → Option TypedObjectReference
  default_api_group none = none
  default_api_group (some ref) =
      if is_some ref.api_group
      then some ref
      else some (record ref { api_group = some gv.dockyards_group })

  abbrev pub cluster_owner_reference : Cluster → OwnerReference
  cluster_owner_reference cluster = record {
    api_version = gv.dockyards_group_version;
    kind = cluster_kind;
    name = cluster.name;
    uid = cluster.uid;
    block_owner_deletion = none;
    controller = none;
  }

  abbrev pub add_owner_reference : OwnerReference → Workload → Workload
  add_owner_reference r w = record w {
    meta = record w.meta { owner_references = w.owner_references ++ r ∷ [] };
  }

abbrev pub cluster_label : Workload → String
cluster_label w = StringMap.get label_cluster_name w.labels

abbrev pub organization_label : Workload → String
organization_label w = StringMap.get label_organization_name w.labels

abbrev pub invalid_workload : {E : Type 0} → Workload → List (FieldError E) → AdmissionError E
invalid_workload w errors = not_valid workload_kind w.name errors

module _ {E : Type 0} (reader : Reader E) where
  unfoldable pub get_cluster : String → String → Result E Cluster
  get_cluster namespace name =
      let (cluster, e) = reader.get_cluster (record { namespace = namespace; name = name }) in
      elim e [ none ↦ ok cluster | some cause ↦ err cause ]

module _ {E : Type 0} (errors : ApiErrors E) (gv : GroupVersions) (reader : Reader E) where
  -- the end of `Default`, once the cluster has been asked for
  own : Workload → Result E Cluster → Workload × Option (AdmissionError E)
  own w (err e) = if errors.is_not_found (some e) then (w, none) else (w, some (passed_on e))
  own w (ok cluster) =
      if errors.is_not_found none
      then (w, none)
      else (add_owner_reference gv (cluster_owner_reference gv cluster) w, none)

  default_owner : Workload → Workload × Option (AdmissionError E)
  unfolding own
  default_owner w =
      if has_cluster_owner_reference gv w
      then (w, none)
      else if cluster_label w == ""
      then (w, none)
      else own w (get_cluster reader w.namespace (cluster_label w))

  unfoldable pub default_workload : Workload → Workload × Option (AdmissionError E)
  unfolding default_owner
  default_workload w =
      default_owner
        (record w { workload_template_ref = default_api_group gv w.workload_template_ref })

  unfoldable pub default : RuntimeObject → RuntimeObject × Option (AdmissionError E)
  default (workload w) = let (w', e) = default_workload w in (workload w', e)
  default (workload_template t) = (workload_template t, some (bad_request "unexpected type"))
  default other = (other, some (bad_request "unexpected type"))
