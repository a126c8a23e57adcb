-- ===== src/Examples/Webhook.antt =====
-- The workload webhooks in the setting of the examples.
use dockyards_flux.Base.{String, false, Option, none, some, [], ◌∷◌, ◌≡◌, refl, ◌↔◌, string_dec}
use dockyards_flux.Base.StringMap
use dockyards_flux.Api.Constants.{
  label_organization_name, label_cluster_name, workload_template_kind,
}
use dockyards_flux.Api.Objects.{TypedObjectReference, Workload, workload}
use dockyards_flux.Api.Errors.{Answer, reply, required}
use dockyards_flux.Webhooks.Workload.Validate.Crash.{LoadsNothing, validate-LoadsNothing_iff}
use dockyards_flux.Api.Cue.{Cue}
use dockyards_flux.Api.Errors.{crash}
use dockyards_flux.Examples.Setting.{Error}
use dockyards_flux.Webhooks.Workload.{
  default_workload, invalid_workload, get_cluster, find_cluster_owner_reference,
  cluster_owner_reference, has_cluster_owner_reference,
}
use dockyards_flux.Webhooks.Workload.Reference.{
  label_path, metadata_errors, validate_cluster_reference,
}
use dockyards_flux.Webhooks.Workload.Validate.{
  validate, validate_template, validate_source, validate_instances, validate_input, input_warnings,
  validate_create, validate_update, validate_workload_update, valid_cluster_reference_update,
  valid_organization_reference_update, valid_template_reference_update,
}
use dockyards_flux.Webhooks.Workload.Reference.Metadata.{IsValidMetadata, IsValidMetadata-sound}
use dockyards_flux.Webhooks.Workload.Validate.Accepts.{IsAccepted, validate_accepts_iff}
use dockyards_flux.Webhooks.Workload.Updates.{
  IsUnmoved, validate_update_accepts_iff, created, updated, History-IsUnmoved,
  validate_update-namespace,
}
use dockyards_flux.Webhooks.Workload.Ownership.{IsFirst, find_cluster_owner_reference_iff}
use dockyards_flux.Webhooks.Workload.Defaulting.{with_defaults, default_workload_idempotent}
use dockyards_flux.Webhooks.Workload.Admission.{IsOwnedBy, default_workload-IsValidMetadata}
use dockyards_flux.Examples.Setting.{
  Error, api_errors, group_versions, reader, cue, object, prod, api_errors-IsLawfulErrors,
  reader-IsLawfulReader, group_versions-ParsesDockyards,
}

abbrev pub reference : String → TypedObjectReference
reference name = record {
  api_group = none;
  kind = workload_template_kind;
  name = name;
  namespace = some "public";
}

abbrev labelled : String → String → Option TypedObjectReference → Workload
labelled organization cluster ref = record {
  meta = record (object "team" "app") {
    labels = some ((label_organization_name, organization) ∷ (label_cluster_name, cluster) ∷ []);
  };
  cluster_component = false;
  workload_template_input = none;
  input = some (123 ∷ 125 ∷ []);
  workload_template_ref = ref;
  conditions = [];
}

run : Workload → Answer Error
unfolding validate validate_template validate_source validate_instances validate_input
    metadata_errors validate_cluster_reference get_cluster find_cluster_owner_reference
    StringMap.get string_dec
run = validate api_errors group_versions reader cue

-- A workload of a known cluster, whose template takes its input.
valid_run : run (labelled "org" "prod" (some (reference "input"))) ≡ reply [] none
unfolding run
valid_run = refl

-- Both mandatory labels are missing.
unlabelled_run :
    run (labelled "" "" none)
    ≡ reply [] (
        some (
          invalid_workload (labelled "" "" none) (
            required (label_path label_organization_name) "mandatory label"
            ∷ required (label_path label_cluster_name) "mandatory label"
            ∷ [])))
unfolding run
unlabelled_run = refl

-- The same labels with a template that does not build.
unbuilt_run : run (labelled "" "" (some (reference "broken"))) ≡ reply [] none
unfolding run
unbuilt_run = refl

abbrev pub good : Workload
good = labelled "org" "prod" (some (reference "input"))

abbrev bare : Workload
bare = labelled "" "" (some (reference "broken"))

pub good_metadata : metadata_errors api_errors group_versions reader good ≡ []
unfolding run
good_metadata = refl

good-IsValidMetadata : IsValidMetadata api_errors group_versions reader good
good-IsValidMetadata = IsValidMetadata-sound api_errors group_versions reader good good_metadata

good_accepted : validate_create api_errors group_versions reader cue (workload good) ≡ reply [] none
unfolding run validate_create
good_accepted = refl

kept :
    validate_update api_errors group_versions reader cue (workload good) (workload good)
    ≡ reply [] none
unfolding run validate_update validate_workload_update validate_create
    valid_cluster_reference_update valid_organization_reference_update
    valid_template_reference_update
kept = refl

validate_accepts_iff_example :
    (validate api_errors group_versions reader cue good ≡ reply (input_warnings good) none)
    ↔ IsAccepted api_errors group_versions reader cue good
validate_accepts_iff_example =
    validate_accepts_iff api_errors group_versions reader cue api_errors-IsLawfulErrors good

validate_update_accepts_iff_example :
    (validate_update api_errors group_versions reader cue (workload good) (workload bare)
      ≡ reply [] none)
    ↔ (IsUnmoved good bare
        × (validate_create api_errors group_versions reader cue (workload bare) ≡ reply [] none))
validate_update_accepts_iff_example =
    validate_update_accepts_iff api_errors group_versions cue reader good bare []

History-IsUnmoved_example : IsUnmoved good good
History-IsUnmoved_example =
    History-IsUnmoved api_errors group_versions cue
      (updated reader [] good (created reader [] good_accepted) kept)

validate_update-namespace_example :
    validate_update api_errors group_versions reader cue (workload good) (
      workload (record good {
        workload_template_ref = some (record (reference "input") { namespace = none });
      }))
    ≡ validate_create api_errors group_versions reader cue (
        workload (record good {
          workload_template_ref = some (record (reference "input") { namespace = none });
        }))
validate_update-namespace_example =
    validate_update-namespace api_errors group_versions cue reader good (reference "input") none
      refl

find_cluster_owner_reference_iff_example :
    (find_cluster_owner_reference group_versions
        (cluster_owner_reference group_versions (prod "p") ∷ [])
      ≡ some (cluster_owner_reference group_versions (prod "p")))
    ↔ IsFirst group_versions
        (cluster_owner_reference group_versions (prod "p"))
        (cluster_owner_reference group_versions (prod "p") ∷ [])
find_cluster_owner_reference_iff_example =
    find_cluster_owner_reference_iff group_versions
      (cluster_owner_reference group_versions (prod "p") ∷ [])
      (cluster_owner_reference group_versions (prod "p"))

defaulted_good : default_workload api_errors group_versions reader good ≡ (
  with_defaults api_errors group_versions reader good
      (cluster_owner_reference group_versions (prod "prod") ∷ []),
  none,
)
unfolding run default_workload has_cluster_owner_reference
defaulted_good = refl

default_workload_idempotent_example :
    default_workload api_errors group_versions reader (
      with_defaults api_errors group_versions reader good
        (cluster_owner_reference group_versions (prod "prod") ∷ []))
    ≡ (
      with_defaults api_errors group_versions reader good
          (cluster_owner_reference group_versions (prod "prod") ∷ []),
      none,
    )
default_workload_idempotent_example =
    default_workload_idempotent api_errors group_versions reader api_errors-IsLawfulErrors
      group_versions-ParsesDockyards good
      (with_defaults api_errors group_versions reader good
        (cluster_owner_reference group_versions (prod "prod") ∷ []))
      defaulted_good

default_workload-IsValidMetadata_example :
    let answer = default_workload api_errors group_versions reader good in
    (answer.1 ≡ none)
    × IsValidMetadata api_errors group_versions reader answer.0
    × IsOwnedBy api_errors group_versions reader good-IsValidMetadata.cluster answer.0
default_workload-IsValidMetadata_example =
    default_workload-IsValidMetadata api_errors group_versions reader api_errors-IsLawfulErrors
      reader-IsLawfulReader group_versions-ParsesDockyards good good-IsValidMetadata

-- A loader that finds no instance.
abbrev empty : Cue Error
empty = record cue { instances = λ name overlay. [] }

validate-LoadsNothing_iff_example :
    (validate api_errors group_versions reader empty good ≡ crash)
    ↔ LoadsNothing api_errors group_versions reader empty good
validate-LoadsNothing_iff_example =
    validate-LoadsNothing_iff api_errors group_versions reader empty api_errors-IsLawfulErrors good
