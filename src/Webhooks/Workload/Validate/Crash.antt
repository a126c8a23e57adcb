-- ===== src/Webhooks/Workload/Validate/Crash.antt =====
-- When `validate` in webhooks/workload_webhook.go panics: at `instances[0]`, where nothing was loaded.
use dockyards_flux.Base.{
  Bool-cases, String, none, some, List, [], ◌∷◌, ◌≡◌, ◌≢◌, ◌↔◌, inl, inr, refl, arith, Option-cases,
}
use dockyards_flux.Base.Outcome.{ok, Result-cases}
use dockyards_flux.Api.Objects.{TypedObjectReference, WorkloadTemplate, Workload}
use dockyards_flux.Api.Errors.{ApiErrors, IsLawfulErrors, FieldError, crash}
use dockyards_flux.Api.Client.{Reader, GroupVersions}
use dockyards_flux.Api.Cue.{Cue}
use dockyards_flux.Webhooks.Workload.Reference.{metadata_errors}
use dockyards_flux.Webhooks.Workload.Validate.{
  input_warnings, finish, load_template, template_key, validate_input, validate_instances,
  validate_source, validate_template, validate,
}

module _ {E : Type 0} (errors : ApiErrors E) (gv : GroupVersions) (reader : Reader E)
    (cue : Cue E) where
  -- The template of the workload is found, and its source loads as no instance.
  abbrev pub LoadsNothing : Workload → Type 0
  LoadsNothing w =
      (ref : TypedObjectReference) × (template : WorkloadTemplate) × (wd : String)
      × (w.workload_template_ref ≡ some ref)
      × (reader.get_workload_template (template_key w ref) ≡ (template, none))
      × (cue.getwd ≡ ok wd)
      × (load_template cue wd template ≡ [])

  finish-ne-crash :
      (w : Workload) (ws : List String) (errs : List (FieldError E)) → finish w ws errs ≢ crash
  finish-ne-crash w ws [] h = ground arith
  finish-ne-crash w ws (x ∷ xs) h = ground arith

  validate_instances-crash :
      (w : Workload) (ws : List String) (errs : List (FieldError E)) (is : List cue.Instance)
      → validate_instances errors gv reader cue w ws errs is ≡ crash
      → is ≡ []
  unfolding validate_instances validate_input
  validate_instances-crash w ws errs [] e = refl
  validate_instances-crash w ws [] (i ∷ is) e = ground arith
  validate_instances-crash w ws (x ∷ xs) (i ∷ is) e = ground arith

  validate_template-crash :
      IsLawfulErrors errors
      → (w : Workload) (ref : TypedObjectReference) (ws : List String) (errs : List (FieldError E))
      → w.workload_template_ref ≡ some ref
      → validate_template errors gv reader cue w ref ws errs ≡ crash
      → LoadsNothing w
  unfolding validate_template validate_source
  validate_template-crash lawful w ref ws errs referenced h =
      let (template, e) = reader.get_workload_template (template_key w ref) in
      let law = lawful.ignore_not_found_lem e in
      elim (Bool-cases (errors.is_not_found e)) [
        | inl missing ↦ ground (arith, missing, law)
        | inr other ↦ elim (Option-cases e) [
          | inr (problem, wrong) ↦ ground (arith, other, law, wrong)
          | inl found ↦ elim (Result-cases cue.getwd) [
            | inr (problem, wrong) ↦ ground (arith, other, law, found, wrong)
            | inl (wd, directory) ↦ (
              ref,
              template,
              wd,
              referenced,
              ground (arith, found),
              directory,
              validate_instances-crash w ws errs (load_template cue wd template)
                  (ground (arith, other, law, found, directory)),
            )
          ]
        ]
      ]

  -- The webhook answers every workload, except that it panics exactly where the template of the workload
  -- is found and its source loads as no instance at all.
  pub validate-LoadsNothing_iff :
      IsLawfulErrors errors
      → (w : Workload) → (validate errors gv reader cue w ≡ crash) ↔ LoadsNothing w
  unfolding validate validate_template validate_source validate_instances
  validate-LoadsNothing_iff lawful w = (
    λ h. elim (Option-cases w.workload_template_ref) [
      | inl bare ↦ absurd (
          finish-ne-crash w (input_warnings w) (metadata_errors errors gv reader w)
            (ground (arith, bare)))
      | inr (ref, referenced) ↦
          validate_template-crash lawful w ref (input_warnings w)
            (metadata_errors errors gv reader w) referenced (ground (arith, referenced))
    ],
    λ n.
        let (ref, template, wd, referenced, found, directory, nothing) = n in
        ground (
          arith,
          referenced,
          found,
          lawful.ignore_not_found_lem none,
          lawful.is_not_found-nil,
          directory,
          nothing,
        ),
  )
