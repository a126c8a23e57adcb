-- ===== src/Controllers/Workload.antt =====
-- controllers/dockyardsworkload_controller.go: the rendering of a workload's template.
pub mod Json
pub mod Base64
pub mod Reconciling
pub mod Watching
pub mod Requeue
pub mod Rendered
pub mod Ready
pub mod Reaching
pub mod Desired
pub mod Prefix
pub mod Again
pub mod Marked
pub mod Accepted
pub mod Settled
pub mod Marks
pub mod Finishing
pub mod Lists
pub mod Paths
pub mod Panics
pub mod Returns
pub mod Admitted
pub mod Kept
pub mod Refined
pub mod Untouched
pub mod Rounds
use dockyards_flux.Base.{
  ℕ, String, Bool, true, false, Option, none, some, List, [], ◌∷◌, ◌==◌, ◌/=◌, ◌&&◌, not,
  if◌then◌else◌, is_some, is_empty, length,
}
use dockyards_flux.Base.Outcome.{Result, ok, err, Outcome, done, failed, panicked}
use dockyards_flux.Controllers.ConditionReasons.{
  waiting_for_cluster_ready_reason, waiting_for_workload_template_reason,
  incorrect_workload_template_type_reason, load_instance_failed_reason,
  build_instance_failed_reason, lookup_path_failed_reason, fill_path_failed_reason,
  validate_failed_reason, fields_failed_reason, decode_failed_reason, reconcile_failed_reason,
}
use dockyards_flux.Api.Constants.{
  label_workload_name, label_cluster_name, workload_kind, workload_template_type_cue,
  ready_condition,
}
use dockyards_flux.Api.Objects.{
  ObjectKey, OwnerReference, Cluster, Workload, WorkloadTemplate, TypedObjectReference, is_zero,
}
use dockyards_flux.Api.Errors.{ApiErrors}
use dockyards_flux.Api.Client.{GroupVersions}
use dockyards_flux.Api.Cue.{Cue}
use dockyards_flux.Api.Conditions.{Conditions, FormatArgument, cause, count}
use dockyards_flux.Api.Rendering.{
  Rendering, WorkloadWorld, Unstructured, Entries, fill_cluster, fill_workload,
}
use dockyards_flux.Api.World.{OperationResult}
use dockyards_flux.Controllers.Workload.Json.{ensure_valid_json}
use dockyards_flux.Webhooks.Workload.Validate.{template_key, load_template}

-- How `reconcileWorkloadTemplate` marks the workload before it returns no error: not at all, with
-- MarkFalse, or with MarkTrue.
pub data Verdict (E : Type 0) : Type 0 where
  ignored : Verdict E
  not_reconciled : (reason format : String) → List (FormatArgument E) → Verdict E
  reconciled : Verdict E

abbrev pub failure : {E : Type 0} → String → Option E → Verdict E
failure reason e = not_reconciled reason "%s" (cause e ∷ [])

-- the owner that every rendered object gets
abbrev pub workload_owner : GroupVersions → Workload → OwnerReference
workload_owner gv w = record {
  api_version = gv.dockyards_group_version;
  kind = workload_kind;
  name = w.name;
  uid = w.uid;
  block_owner_deletion = some true;
  controller = some true;
}

-- `SetOwnerReferences` and `SetLabels` of the callback
abbrev pub set_metadata : GroupVersions → Workload → Cluster → Unstructured → Unstructured
set_metadata gv w cluster u = record u {
  meta = record u.meta {
    owner_references = workload_owner gv w ∷ [];
    labels = some ((label_workload_name, w.name) ∷ (label_cluster_name, cluster.name) ∷ []);
  };
}

module _ {E : Type 0} (gv : GroupVersions) (cue : Cue E) (rendering : Rendering cue) where
  open cue use {Value, Instance, build_instance, exists, lookup_def, getwd}
  open rendering use {
    fill_path, validate, validate_concrete, fields, decode_object, decode_map, lookup_spec,
    set_nested_spec,
  }

  -- the callback of CreateOrPatch, for the value of a field
  unfoldable pub fill_object : Workload → Cluster → Value → Unstructured → Outcome E Unstructured
  fill_object w cluster v u =
      let u' = set_metadata gv w cluster u in
      if not (exists (lookup_spec v)) then done u' else elim (decode_map (lookup_spec v)) [
        | err e ↦ failed e
        | ok nested_map ↦ set_nested_spec (ensure_valid_json nested_map) u'
      ]

  -- the checks from the built instance to the value that is rendered
  unfoldable pub fill_template : Workload → Cluster → Value → Result (Verdict E) Value
  fill_template w cluster value = elim (cue.err (lookup_def value "#workload")) [
    | some e ↦ err (failure lookup_path_failed_reason (some e))
    | none ↦ elim (cue.err (lookup_def value "#cluster")) [
      | some e ↦ err (failure lookup_path_failed_reason (some e))
      | none ↦
          let v = fill_path value "#cluster" (fill_cluster cluster) in
          elim (cue.err v) [
            | some e ↦ err (failure fill_path_failed_reason (some e))
            | none ↦
                let v' = fill_path v "#workload" (fill_workload w) in
                elim (cue.err v') [
                  | some e ↦ err (failure fill_path_failed_reason (some e))
                  | none ↦ elim (validate v') [
                    | some e ↦ err (failure validate_failed_reason (some e))
                    | none ↦ ok v'
                  ]
                ]
          ]
    ]
  ]

  -- The instance that is built, if it is the only one: the message of a failed build is formatted from
  -- the nil error that os.Getwd left.
  unfoldable pub build_template : Workload → Cluster → List Instance → Result (Verdict E) Value
  build_template w cluster [] =
      err (not_reconciled load_instance_failed_reason "incorrect instance count %d" (count 0 ∷ []))
  build_template w cluster (instance ∷ []) = elim (cue.err (build_instance instance)) [
    | some e ↦ err (failure build_instance_failed_reason none)
    | none ↦ fill_template w cluster (build_instance instance)
  ]
  build_template w cluster (a ∷ b ∷ rest) = err (
      not_reconciled load_instance_failed_reason "incorrect instance count %d"
        (count (length (a ∷ b ∷ rest)) ∷ []))

-- The next step after a CreateOrPatch that returned no error; its error is put in the condition.
abbrev pub after_operation :
    {S E : Type 0}
    → (S → S × Outcome E (Verdict E))
    → S × Outcome E OperationResult
    → S × Outcome E (Verdict E)
after_operation next (s, done op) = next s
after_operation next (s, failed e) = (s, done (failure reconcile_failed_reason (some e)))
after_operation next (s, panicked) = (s, panicked)

module _ {S E : Type 0} (errors : ApiErrors E) (gv : GroupVersions) (conditions : Conditions E)
    (cue : Cue E) (rendering : Rendering cue) (world : WorkloadWorld S E) where
  open cue use {Value, Instance, getwd}
  open rendering use {validate_concrete, fields, decode_object}

  -- the loop over the fields of the rendered template
  unfoldable pub apply_fields : Workload → Cluster → List Value → S → S × Outcome E (Verdict E)
  apply_fields w cluster [] s = (s, done reconciled)
  apply_fields w cluster (v ∷ vs) s = elim (validate_concrete v) [
    | some e ↦ (s, done (failure validate_failed_reason (some e)))
    | none ↦ elim (decode_object v) [
      | err e ↦ (s, done (failure decode_failed_reason (some e)))
      | ok u ↦
          after_operation (λ s'. apply_fields w cluster vs s')
            (world.create_or_patch u (fill_object gv cue rendering w cluster v) s)
    ]
  ]

  unfoldable pub apply_template :
      Workload → Cluster → Result (Verdict E) Value → S → S × Outcome E (Verdict E)
  unfolding apply_fields
  apply_template w cluster (err verdict) s = (s, done verdict)
  apply_template w cluster (ok v) s = elim (fields v) [
    | err e ↦ (s, done (failure fields_failed_reason (some e)))
    | ok values ↦ apply_fields w cluster values s
  ]

  -- the part of `reconcileWorkloadTemplate` once the template was found
  unfoldable pub render : Workload → Cluster → WorkloadTemplate → S → S × Outcome E (Verdict E)
  unfolding apply_template
  render w cluster template s =
      if template.type /= workload_template_type_cue
      then (s, done (not_reconciled incorrect_workload_template_type_reason "" []))
      else if not w.cluster_component && conditions.is_false cluster.conditions ready_condition
      then (s, done (not_reconciled waiting_for_cluster_ready_reason "" []))
      else elim getwd [
        | err e ↦ (s, failed e)
        | ok wd ↦
            apply_template w cluster
              (build_template gv cue rendering w cluster (load_template cue wd template)) s
      ]

  unfoldable pub render_reference :
      Workload → Cluster → TypedObjectReference → S → S × Outcome E (Verdict E)
  unfolding render
  render_reference w cluster ref s =
      let (template, e) = world.get_workload_template (template_key w ref) s in
      elim (errors.ignore_not_found e) [
        | some other ↦ elim e [ none ↦ (s, done ignored) | some problem ↦ (s, failed problem) ]
        | none ↦
            if errors.is_not_found e
            then (s, done (not_reconciled waiting_for_workload_template_reason "" []))
            else render w cluster template s
      ]

  unfoldable pub reconcile_workload_template : Workload → S → S × Outcome E (Verdict E)
  unfolding render_reference
  reconcile_workload_template w s =
      if not (is_zero w.deletion_timestamp)
      then (s, done ignored)
      else (let (owner, e) = world.get_owner_cluster w s in
          elim e [
            | some problem ↦ (s, failed problem)
            | none ↦ elim owner [
              | none ↦ (s, done ignored)
              | some cluster ↦ elim w.workload_template_ref [
                | none ↦ (s, done ignored)
                | some ref ↦ render_reference w cluster ref s
              ]
            ]
          ])
