-- ===== src/Examples/Admission.antt =====
-- An accepted template whose filled value is not valid.
use dockyards_flux.Base.{some, [], ◌∷◌, ◌≡◌, refl, string_dec}
use dockyards_flux.Base.Outcome.{err}
use dockyards_flux.Api.Conditions.{cause}
use dockyards_flux.Api.Rendering.{Rendering}
use dockyards_flux.Controllers.ConditionReasons.{validate_failed_reason}
use dockyards_flux.Controllers.Workload.{not_reconciled, build_template, fill_template}
use dockyards_flux.Controllers.Workload.Accepted.{IsFillingReason, build_template-accepted}
use dockyards_flux.Webhooks.Workload.Validate.{load_template}
use dockyards_flux.Examples.Setting.{broken, group_versions, cue, prod}
use dockyards_flux.Examples.Rendering.{
  new_error, template, cue-HasErrors, template_accepted, template_loads, rendering,
}
use dockyards_flux.Api.Objects.{workload}
use dockyards_flux.Webhooks.Workload.Validate.{validate_update, validate_create}
use dockyards_flux.Controllers.Workload.Reconciling.{reconcile_steps, summarise}
use dockyards_flux.Controllers.Workload.Admitted.{validate_update-summarise}
use dockyards_flux.Examples.Setting.{api_errors, reader}
use dockyards_flux.Examples.Rendering.{conditions, workload_world, no_resources}
use dockyards_flux.Examples.Webhook.{good}

abbrev refusing : Rendering cue
refusing = record rendering { validate = λ v. some broken }

not_valid :
    build_template group_versions cue refusing good
      (prod "prod")
      (load_template cue "/srv/app" template)
    ≡ err (not_reconciled validate_failed_reason "%s" (cause (some broken) ∷ []))
unfolding build_template fill_template string_dec
not_valid = refl

build_template-accepted_example : IsFillingReason validate_failed_reason
build_template-accepted_example =
    build_template-accepted group_versions cue refusing good (prod "prod") new_error cue-HasErrors
      template "/srv/app" (1 ∷ []) validate_failed_reason "%s" (cause (some broken) ∷ [])
      template_accepted refl template_loads not_valid

validate_update-summarise_example :
    validate_update api_errors group_versions reader cue (workload good) (
      workload (
        summarise conditions
          (reconcile_steps api_errors group_versions conditions cue rendering workload_world good
            no_resources).1))
    ≡ validate_create api_errors group_versions reader cue (workload good)
validate_update-summarise_example =
    validate_update-summarise api_errors group_versions conditions cue rendering workload_world
      reader good no_resources
