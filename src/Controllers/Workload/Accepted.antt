-- ===== src/Controllers/Workload/Accepted.antt =====
-- What the admission of a template by webhooks/workloadtemplate_webhook.go means for its rendering by
-- controllers/dockyardsworkload_controller.go.
use dockyards_flux.Base.{String, none, List, [], ◌∷◌, ◌≡◌, ◌⊎◌, inl, inr, arith, Option-cases}
use dockyards_flux.Base.Outcome.{ok, err}
use dockyards_flux.Api.Objects.{Cluster, Workload, WorkloadTemplate}
use dockyards_flux.Api.Client.{GroupVersions}
use dockyards_flux.Api.Cue.{Cue}
use dockyards_flux.Api.Conditions.{FormatArgument}
use dockyards_flux.Api.Rendering.{Rendering, fill_cluster, fill_workload}
use dockyards_flux.Controllers.ConditionReasons.{
  lookup_path_failed_reason, fill_path_failed_reason, validate_failed_reason,
}
use dockyards_flux.Controllers.Workload.{not_reconciled, build_template, fill_template}
use dockyards_flux.Webhooks.Workload.Validate.{load_template}
use dockyards_flux.Webhooks.Template.{validate_workload_template}
use dockyards_flux.Webhooks.Template.Accepts.{HasErrors, accepted_first}

-- The reasons of a template that was built.
abbrev pub IsFillingReason : String → Type 0
IsFillingReason reason =
    (reason ≡ lookup_path_failed_reason)
    ⊎ (reason ≡ fill_path_failed_reason)
    ⊎ (reason ≡ validate_failed_reason)

module _ {E : Type 0} (gv : GroupVersions) (cue : Cue E) (rendering : Rendering cue) (w : Workload)
    (cluster : Cluster) where
  open cue use {Value, Instance}
  open rendering use {fill_path, validate}

  fill_template-reason :
      (value : Value) (reason format : String) (arguments : List (FormatArgument E))
      → fill_template gv cue rendering w cluster value
        ≡ err (not_reconciled reason format arguments)
      → IsFillingReason reason
  unfolding fill_template
  fill_template-reason value reason format arguments h =
      let v = fill_path value "#cluster" (fill_cluster cluster) in
      let v' = fill_path v "#workload" (fill_workload w) in
      elim (Option-cases (cue.err (cue.lookup_def value "#workload"))) [
        | inr (e, wrong) ↦ inl (ground (arith, wrong))
        | inl workload ↦ elim (Option-cases (cue.err (cue.lookup_def value "#cluster"))) [
          | inr (e, wrong) ↦ inl (ground (arith, workload, wrong))
          | inl found ↦ elim (Option-cases (cue.err v)) [
            | inr (e, wrong) ↦ inr (inl (ground (arith, workload, found, wrong)))
            | inl filled ↦ elim (Option-cases (cue.err v')) [
              | inr (e, wrong) ↦ inr (inl (ground (arith, workload, found, filled, wrong)))
              | inl all ↦ elim (Option-cases (validate v')) [
                | inr (e, wrong) ↦ inr (inr (ground (arith, workload, found, filled, all, wrong)))
                | inl valid ↦ ground (arith, workload, found, filled, all, valid)
              ]
            ]
          ]
        ]
      ]

  -- An accepted template that loads as one instance is built by the workload controller too: if it is
  -- not reconciled before its fields are read, a definition could not be looked up or filled, or the
  -- filled value is not valid.
  pub build_template-accepted :
      (new_error : String → E)
      → HasErrors cue
      → (t : WorkloadTemplate) (wd : String) (instance : Instance) (reason format : String)
        (arguments : List (FormatArgument E))
      → validate_workload_template new_error cue t ≡ none
      → cue.getwd ≡ ok wd
      → load_template cue wd t ≡ instance ∷ []
      → build_template gv cue rendering w cluster (load_template cue wd t)
        ≡ err (not_reconciled reason format arguments)
      → IsFillingReason reason
  unfolding build_template
  build_template-accepted new_error lawful t wd instance reason format arguments accepted directory
        loaded h =
      let usable = accepted_first new_error cue lawful t wd instance [] accepted directory loaded in
      fill_template-reason (cue.build_instance instance) reason format arguments
        (ground (arith, usable.builds, loaded, h))
