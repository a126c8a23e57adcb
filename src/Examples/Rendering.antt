-- ===== src/Examples/Rendering.antt =====
-- The template webhook, the workload controller and the ingress URLs in the setting of the examples.
use dockyards_flux.Base.{
  String, Bool, false, Option, none, some, List, [], ◌∷◌, ◌≡◌, ◌≢◌, ◌⊎◌, ◌↔◌, refl, arith,
  string_dec, if◌then◌else◌, is_empty, ◌==◌,
}
use dockyards_flux.Base.Outcome.{done, ok}
use dockyards_flux.Api.Objects.{ObjectKey, WorkloadTemplate, Condition}
use dockyards_flux.Base.View.{View}
use dockyards_flux.Api.Conditions.{Conditions}
use dockyards_flux.Api.Rendering.{
  Rendering, WorkloadWorld, Unstructured, bytes, entry, no_entries, object, Entries, ResourceKey,
  resource_key, same_resource,
}
use dockyards_flux.Controllers.Workload.{
  reconciled, reconcile_workload_template, apply_fields, apply_template, build_template,
  fill_template, fill_object, render, render_reference,
}
use dockyards_flux.Controllers.Workload.Reconciling.{
  Progress, settled, reconcile_progress, reconcile_steps, finish_workload, reconcile_workload,
}
use dockyards_flux.Controllers.Workload.Ready.{
  IsReconciled, reconcile_workload_template-reconciled_iff,
}
use dockyards_flux.Controllers.Workload.Finishing.{
  IsPatched, reconcile_workload-done, reconcile_workload-state,
}
use dockyards_flux.Controllers.Workload.Settled.{IsProgress}
use dockyards_flux.Controllers.Workload.Marks.{with_marks, reconcile_steps-done_iff}
use dockyards_flux.Ingress.{Ingress, get_urls_from_ingress, append_tls, append_hosts, append_rules}
use dockyards_flux.Ingress.Urls.{addressed_urls, get_urls_from_ingress_lem}
use dockyards_flux.Webhooks.Workload.Validate.{load_template}
use dockyards_flux.Webhooks.Template.{validate_workload_template, append_instance_errors}
use dockyards_flux.Webhooks.Template.Accepts.{
  HasErrors, IsUsableTemplate, validate_workload_template_accepts_iff,
}
use dockyards_flux.Examples.Setting.{
  Error, missing, broken, api_errors, api_errors-IsLawfulErrors, group_versions, cue, reader, prod,
  with_input, Template,
}
use dockyards_flux.Examples.Setting
use dockyards_flux.Examples.Store.{create_or_patch, first_error, kustomization, helm_release}
use dockyards_flux.Examples.Controllers.{first_error-KeepsErrors}
use dockyards_flux.Examples.Webhook.{good}

abbrev pub new_error : String → Error
new_error message = broken

abbrev pub template : WorkloadTemplate
template = (reader.get_workload_template (record { namespace = "public"; name = "input" })).0

pub cue-HasErrors : HasErrors cue
cue-HasErrors e h = ground arith

validate_workload_template_accepts_iff_example :
    (validate_workload_template new_error cue template ≡ none)
    ↔ IsUsableTemplate new_error cue template
validate_workload_template_accepts_iff_example =
    validate_workload_template_accepts_iff new_error cue cue-HasErrors template

pub template_accepted : validate_workload_template new_error cue template ≡ none
unfolding validate_workload_template append_instance_errors string_dec
template_accepted = refl

pub template_loads : load_template cue "/srv/app" template ≡ (1 ∷ []) ∷ []
unfolding string_dec
template_loads = refl

abbrev pub rendered_object : Unstructured
rendered_object = record {
  api_version = "v1";
  kind = "HelmRelease";
  meta = Setting.object "team" "app";
  spec = none;
}

abbrev pub spec : Entries
spec =
    entry "data" (bytes (1 ∷ []))
      (entry "more" (object (entry "key" (bytes []) no_entries)) no_entries)

abbrev pub rendering : Rendering cue
rendering = record {
  fill_path = λ v name x. v;
  validate = λ v. none;
  validate_concrete = λ v. none;
  fields = λ v. ok (v ∷ []);
  decode_object = λ v. ok rendered_object;
  decode_map = λ v. ok spec;
  lookup_spec = λ v. v;
  set_nested_spec = λ entries u. done (record u { spec = some entries });
}

abbrev condition : String → String → String → String → Condition
condition type status reason message = record {
  type = type;
  status = status;
  reason = reason;
  message = message;
}

abbrev has_status : String → String → List Condition → Bool
has_status type status [] = false
has_status type status (c ∷ cs) =
    let rest = has_status type status cs in if c.type == type then c.status == status else rest

abbrev without : String → List Condition → List Condition
without type [] = []
without type (c ∷ cs) = let rest = without type cs in if c.type == type then rest else c ∷ rest

abbrev pub conditions : Conditions Error
conditions = record {
  mark_false = λ cs type reason format arguments. condition type "False" reason format ∷ cs;
  mark_true = λ cs type reason format arguments. condition type "True" reason format ∷ cs;
  delete = λ cs type. without type cs;
  is_false = λ cs type. has_status type "False" cs;
  is_reconciling = λ cs. has_status "Reconciling" "True" cs;
  set_summary = λ cs type of negative. condition type "Unknown" "" "" ∷ cs;
}

abbrev pub no_resources : View ResourceKey Unstructured
no_resources key = none

abbrev pub workload_world : WorkloadWorld (View ResourceKey Unstructured) Error
workload_world = record {
  get_workload = λ key s. (good, none);
  get_owner_cluster = λ w s. (some (prod "prod"), none);
  get_workload_template = λ key s. reader.get_workload_template key;
  list_kustomizations = λ name namespace s. (kustomization ∷ [], none);
  list_helm_releases = λ name namespace s. (helm_release ∷ [], none);
  create_or_patch = create_or_patch same_resource resource_key;
  new_workload_helper = λ w s. none;
  patch_workload = λ before after s. (s, none);
  new_aggregate = first_error;
}

abbrev rendered : View ResourceKey Unstructured
rendered =
    (reconcile_workload_template api_errors group_versions conditions cue rendering workload_world
      good no_resources).0

-- The object of the template is stored, and the workload's template is marked as reconciled.
rendered_run :
    reconcile_workload_template api_errors group_versions conditions cue rendering workload_world
      good no_resources
    ≡ (rendered, done reconciled)
unfolding reconcile_workload_template render_reference render apply_template apply_fields
    build_template fill_template fill_object create_or_patch string_dec
rendered_run = refl

reconcile_workload_template-reconciled_iff_example :
    (reconcile_workload_template api_errors group_versions conditions cue rendering workload_world
        good no_resources
      ≡ (rendered, done reconciled))
    ↔ IsReconciled api_errors group_versions conditions cue rendering workload_world good
        no_resources rendered
reconcile_workload_template-reconciled_iff_example =
    reconcile_workload_template-reconciled_iff api_errors group_versions conditions cue rendering
      workload_world api_errors-IsLawfulErrors good no_resources rendered

reconcile_steps-done_iff_example :
    (reconcile_steps api_errors group_versions conditions cue rendering workload_world good
        no_resources
      ≡ (rendered, with_marks conditions reconciled settled good, done tt))
    ↔ ((progress : Progress) × IsProgress api_errors group_versions conditions cue rendering
          workload_world good rendered progress
        × (with_marks conditions reconciled settled good
            ≡ with_marks conditions reconciled progress good))
reconcile_steps-done_iff_example =
    reconcile_steps-done_iff api_errors group_versions conditions cue rendering workload_world good
      no_resources rendered reconciled (with_marks conditions reconciled settled good) rendered_run

abbrev workload_key : ObjectKey
workload_key = record { namespace = "team"; name = "app" }

abbrev after_workload : View ResourceKey Unstructured
after_workload =
    (reconcile_workload api_errors group_versions conditions cue rendering workload_world
      workload_key no_resources).0

workload_run :
    reconcile_workload api_errors group_versions conditions cue rendering workload_world
      workload_key no_resources
    ≡ (after_workload, done tt)
unfolding reconcile_workload reconcile_steps finish_workload reconcile_progress
    reconcile_workload_template render_reference render apply_template apply_fields build_template
    fill_template fill_object create_or_patch string_dec
workload_run = refl

reconcile_workload-done_example :
    ((◌≢◌ {A = Option Error} none none)
      × (api_errors.ignore_not_found none ≡ none)
      × (after_workload ≡ no_resources))
    ⊎ ((◌≡◌ {A = Option Error} none none)
        × (workload_world.new_workload_helper good no_resources ≡ none)
        × IsPatched api_errors group_versions conditions cue rendering workload_world good
            no_resources after_workload)
reconcile_workload-done_example =
    reconcile_workload-done api_errors group_versions conditions cue rendering workload_world
      first_error-KeepsErrors workload_key no_resources after_workload workload_run

reconcile_workload-state_example :
    (reconcile_workload api_errors group_versions conditions cue rendering workload_world
      workload_key no_resources).0
    ≡ (let (mid, after, _) =
          reconcile_steps api_errors group_versions conditions cue rendering workload_world good
            no_resources in
        (workload_world.patch_workload good
          (record after {
            conditions =
                conditions.set_summary after.conditions "Ready"
                  ("WorkloadTemplateReconciled" ∷ "Reconciling" ∷ [])
                  ("Reconciling" ∷ []);
          })
          mid).0)
reconcile_workload-state_example =
    reconcile_workload-state api_errors group_versions conditions cue rendering workload_world
      workload_key no_resources refl refl

-- An ingress with an address and one rule without a host.
abbrev hostless : Ingress
hostless = record {
  load_balancer_ingress = record { ip = "10.0.0.1"; hostname = "" } ∷ [];
  tls = [];
  rules = record { host = [] } ∷ [];
}

-- It has the URL `http:`.
hostless_run : get_urls_from_ingress hostless ≡ (104 ∷ 116 ∷ 116 ∷ 112 ∷ 58 ∷ []) ∷ []
unfolding get_urls_from_ingress append_tls append_hosts append_rules
hostless_run = refl

get_urls_from_ingress_lem_example :
    get_urls_from_ingress hostless
    ≡ (if is_empty hostless.load_balancer_ingress then [] else addressed_urls hostless)
get_urls_from_ingress_lem_example = get_urls_from_ingress_lem hostless
