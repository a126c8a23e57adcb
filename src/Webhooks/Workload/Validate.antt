-- ===== src/Webhooks/Workload/Validate.antt =====
-- webhooks/workload_webhook.go: `validate` and the three validating handlers.
pub mod Accepts
pub mod Answers
pub mod Crash
use dockyards_flux.Base.{
  String, Bool, true, false, Option, none, some, List, [], ◌∷◌, ◌++◌, ◌==◌, ◌/=◌, ◌&&◌, not,
  if◌then◌else◌, is_some, is_empty, map,
}
use dockyards_flux.Base.Outcome.{Result, ok, err, error_of}
use dockyards_flux.Base.GoPath
use dockyards_flux.Base.StringMap
use dockyards_flux.Api.Constants.{label_organization_name, label_cluster_name}
use dockyards_flux.Api.Objects.{
  Bytes, ObjectKey, OwnerReference, TypedObjectReference, Cluster, WorkloadTemplate, Workload,
  RuntimeObject, workload, workload_template, other,
}
use dockyards_flux.Api.Errors.{
  ApiErrors, FieldError, required, invalid, forbidden, not_found, internal_error, text,
  AdmissionError, bad_request, passed_on, Answer, reply, crash,
}
use dockyards_flux.Api.Client.{Reader, GroupVersions}
use dockyards_flux.Api.Cue.{Cue}
use dockyards_flux.Webhooks.Workload.{
  find_cluster_owner_reference, cluster_label, organization_label, invalid_workload, get_cluster,
}
use dockyards_flux.Webhooks.Workload.Reference.{
  label_path, owners_path, missing_label, label_errors, validate_cluster_reference, metadata_errors,
}

abbrev pub template_path : List String
template_path = "spec" ∷ "workloadTemplateRef" ∷ []

abbrev pub input_path : List String
input_path = "spec" ∷ "input" ∷ []

-- the key of the template; a reference without a namespace is in the workload's
abbrev pub template_key : Workload → TypedObjectReference → ObjectKey
template_key w ref = record {
  namespace = elim ref.namespace [ none ↦ w.namespace | some namespace ↦ namespace ];
  name = ref.name;
}

abbrev pub input_warnings : Workload → List String
input_warnings w =
    if is_some w.workload_template_input
    then "ignoring deprecated field workloadTemplateInput" ∷ []
    else []

-- `return allWarnings, NewInvalid(allErrors)` if there are errors, and `return allWarnings, nil`
abbrev pub finish : {E : Type 0} → Workload → List String → List (FieldError E) → Answer E
finish w warnings [] = reply warnings none
finish w warnings (e ∷ es) = reply warnings (some (invalid_workload w (e ∷ es)))

-- `return allWarnings, NewInvalid(append(allErrors, last))`
abbrev pub reject_with :
    {E : Type 0} → Workload → List String → List (FieldError E) → List (FieldError E) → Answer E
reject_with w warnings errors more = reply warnings (some (invalid_workload w (errors ++ more)))

-- `{}`
abbrev pub empty_object : Bytes
empty_object = 123 ∷ 125 ∷ []

abbrev pub raw_input : Option Bytes → Bytes
raw_input none = empty_object
raw_input (some raw) = raw

module _ {E : Type 0} (cue : Cue E) where
  abbrev pub forbidden_input : cue.CueError → FieldError E
  forbidden_input e = forbidden input_path (cue.error e)

  -- the instances of a template's source, laid over the working directory
  abbrev pub load_template : String → WorkloadTemplate → List cue.Instance
  load_template wd template =
      cue.instances "template" ((GoPath.join wd "template.cue", template.source) ∷ [])

module _ {E : Type 0} (errors : ApiErrors E) (gv : GroupVersions) (reader : Reader E) where
  module _ (cue : Cue E) where
    open cue use {Value, build_instance, lookup_def, exists, json_validate, getwd}

    -- `validate` once the template has been built: the input against `#Input`
    unfoldable pub validate_input : Workload → List String → List (FieldError E) → Value → Answer E
    validate_input w warnings errs value =
        let input = lookup_def value "#Input" in
        if not (exists input) && is_some w.input
        then reject_with w warnings errs
            (forbidden input_path "input not supported on template" ∷ [])
        else if not (exists input)
        then finish w warnings errs
        else elim (json_validate (raw_input w.input) input) [
          | some e ↦ reject_with w warnings errs (map (forbidden_input cue) (cue.errors e))
          | none ↦ finish w warnings errs
        ]

    -- `value := cuectx.BuildInstance(instances[0])`; the error that is returned where the build
    -- failed is the nil error that os.Getwd left
    unfoldable pub validate_instances :
        Workload → List String → List (FieldError E) → List cue.Instance → Answer E
    validate_instances w warnings errs [] = crash
    validate_instances w warnings errs (instance ∷ rest) =
        let value = build_instance instance in
        elim (cue.err value) [
          | some e ↦ reply warnings none
          | none ↦ validate_input w warnings errs value
        ]

    unfoldable pub validate_source :
        Workload → List String → List (FieldError E) → WorkloadTemplate → Answer E
    validate_source w warnings errs template = elim getwd [
      | err e ↦ reply warnings (some (passed_on e))
      | ok wd ↦ validate_instances w warnings errs (load_template cue wd template)
    ]

    unfoldable pub validate_template :
        Workload → TypedObjectReference → List String → List (FieldError E) → Answer E
    validate_template w ref warnings errs =
        let (template, e) = reader.get_workload_template (template_key w ref) in
        if is_some (errors.ignore_not_found e)
        then reject_with w warnings errs (internal_error template_path e ∷ [])
        else if errors.is_not_found e
        then reject_with w warnings errs (not_found template_path ref.name ∷ [])
        else validate_source w warnings errs template

    unfoldable pub validate : Workload → Answer E
    validate w = elim w.workload_template_ref [
      | none ↦ finish w (input_warnings w) (metadata_errors errors gv reader w)
      | some ref ↦ validate_template w ref (input_warnings w) (metadata_errors errors gv reader w)
    ]

    unfoldable pub validate_create : RuntimeObject → Answer E
    validate_create (workload w) = validate w
    validate_create (workload_template t) = reply [] (some (bad_request "unexpected type"))
    validate_create other = reply [] (some (bad_request "unexpected type"))

unfoldable pub validate_delete : {E : Type 0} → RuntimeObject → Answer E
validate_delete object = reply [] none

unfoldable pub valid_cluster_reference_update : Workload → Workload → Bool
valid_cluster_reference_update old new = cluster_label old == cluster_label new

unfoldable pub valid_organization_reference_update : Workload → Workload → Bool
valid_organization_reference_update old new = organization_label old == organization_label new

unfoldable pub valid_template_reference_update : Workload → Workload → Bool
valid_template_reference_update old new = elim old.workload_template_ref [
  | none ↦ true
  | some was ↦ elim new.workload_template_ref [
    | none ↦ false
    | some is ↦ if is.name /= was.name then false else true
  ]
]

-- the answer to an update of an immutable reference
abbrev pub immutable : {E : Type 0} → Workload → List String → Answer E
immutable old path =
    reply [] (some (invalid_workload old (forbidden path "reference is immutable" ∷ [])))

module _ {E : Type 0} (errors : ApiErrors E) (gv : GroupVersions) (reader : Reader E)
    (cue : Cue E) where
  unfoldable pub validate_workload_update : Workload → Workload → Answer E
  validate_workload_update old new =
      if not (valid_template_reference_update old new)
      then immutable old template_path
      else if not (valid_cluster_reference_update old new)
      then immutable old (label_path label_cluster_name)
      else if not (valid_organization_reference_update old new)
      then immutable old (label_path label_organization_name)
      else validate errors gv reader cue new

  unfoldable pub validate_update : RuntimeObject → RuntimeObject → Answer E
  validate_update (workload old) (workload new) = validate_workload_update old new
  validate_update old new = reply [] (some (bad_request "unexpected type"))
