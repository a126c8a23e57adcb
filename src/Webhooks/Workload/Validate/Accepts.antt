-- ===== src/Webhooks/Workload/Validate/Accepts.antt =====
-- When `validate` of webhooks/workload_webhook.go accepts a workload.
use dockyards_flux.Base.{
  String, true, false, none, some, List, [], ◌∷◌, ◌≡◌, ◌↔◌, ◌⊎◌, inl, inr, refl, arith,
  Option-cases, subst, ◌∙◌,
}
use dockyards_flux.Base.Outcome.{ok, Result-cases}
use dockyards_flux.Api.Objects.{TypedObjectReference, WorkloadTemplate, Workload}
use dockyards_flux.Api.Errors.{ApiErrors, IsLawfulErrors, FieldError, reply}
use dockyards_flux.Api.Client.{Reader, GroupVersions}
use dockyards_flux.Api.Cue.{Cue}
use dockyards_flux.Webhooks.Workload.Reference.{metadata_errors}
use dockyards_flux.Webhooks.Workload.Validate.{
  raw_input, template_key, finish, validate_input, validate_instances, load_template,
  validate_source, validate_template, validate, input_warnings,
}
use dockyards_flux.Webhooks.Workload.Reference.Metadata.{
  IsValidMetadata, metadata_errors-eq-nil_iff,
}

module _ {E : Type 0} (errors : ApiErrors E) (gv : GroupVersions) (reader : Reader E)
    (cue : Cue E) where
  open cue use {Value, build_instance, lookup_def, exists, json_validate, getwd}

  -- The input fits the template: a template without `#Input` is given none, and any other accepts
  -- the input, `{}` standing for none.
  abbrev pub IsValidInput : Workload → Value → Type 0
  IsValidInput w value =
      let input = lookup_def value "#Input" in
      ((exists input ≡ false) × (w.input ≡ none))
      ⊎ ((exists input ≡ true) × (json_validate (raw_input w.input) input ≡ none))

  -- The template of a reference has been found, and this is its first instance.
  pub record IsLoaded (w : Workload) (ref : TypedObjectReference) (instance : cue.Instance)
      : Type 0 where
    pub template : WorkloadTemplate
    pub found : reader.get_workload_template (template_key w ref) ≡ (template, none)
    pub wd : String
    pub directory : getwd ≡ ok wd
    pub others : List cue.Instance
    pub loaded : load_template cue wd template ≡ instance ∷ others

  input_accepts_iff :
      (w : Workload) (ws : List String) (errs : List (FieldError E)) (value : Value)
      → (validate_input errors gv reader cue w ws errs value ≡ reply ws none)
        ↔ ((errs ≡ []) × IsValidInput w value)
  unfolding validate_input
  input_accepts_iff w ws [] value = ((λ e. (refl, ground arith)), λ h. ground arith)
  input_accepts_iff w ws (e ∷ es) value = ((λ h. ground arith), λ h. ground arith)

  -- The build of the first instance failed, or the metadata and the input are valid.
  abbrev pub IsAcceptedInstance : Type 0 → Workload → cue.Instance → Type 0
  IsAcceptedInstance Metadata w instance =
      ((e : E) × (cue.err (build_instance instance) ≡ some e))
      ⊎ ((cue.err (build_instance instance) ≡ none)
          × Metadata
          × IsValidInput w (build_instance instance))

  instance_accepts_iff :
      (w : Workload) (ws : List String) (errs : List (FieldError E)) (i : cue.Instance)
      (is : List cue.Instance)
      → (validate_instances errors gv reader cue w ws errs (i ∷ is) ≡ reply ws none)
        ↔ IsAcceptedInstance (errs ≡ []) w i
  unfolding validate_instances
  instance_accepts_iff w ws errs i is = elim (Option-cases (cue.err (build_instance i))) [
    | inl built ↦
        let (to, from) = input_accepts_iff w ws errs (build_instance i) in
        (
          (λ h. let p = to (ground (arith, built)) in inr (built, p.0, p.1)),
          λ h. ground (arith, built, from),
        )
    | inr (e, failed) ↦ ((λ h. inl (e, failed)), λ h. ground (arith, failed))
  ]

  -- What `validate` makes of the template that a reference names.
  abbrev pub IsAcceptedTemplate : Type 0 → Workload → TypedObjectReference → Type 0
  IsAcceptedTemplate Metadata w ref =
      (instance : cue.Instance) × IsLoaded w ref instance × IsAcceptedInstance Metadata w instance

  source_accepts :
      (w : Workload) (ws : List String) (errs : List (FieldError E)) (template : WorkloadTemplate)
      → validate_source errors gv reader cue w ws errs template ≡ reply ws none
      → (wd : String) × (getwd ≡ ok wd)
        × (validate_instances errors gv reader cue w ws errs (load_template cue wd template)
            ≡ reply ws none)
  unfolding validate_source
  source_accepts w ws errs template e = elim (Result-cases getwd) [
    | inl (wd, found) ↦ (wd, found, ground (arith, found))
    | inr (cause, failed) ↦ ground (arith, failed)
  ]

  instances_nonempty :
      (w : Workload) (ws : List String) (errs : List (FieldError E)) (is : List cue.Instance)
      → validate_instances errors gv reader cue w ws errs is ≡ reply ws none
      → (i : cue.Instance) × (others : List cue.Instance) × (is ≡ i ∷ others)
  unfolding validate_instances
  instances_nonempty w ws errs [] e = cc
  instances_nonempty w ws errs (i ∷ others) e = (i, others, refl)

  template_accepts :
      IsLawfulErrors errors
      → (w : Workload) (ref : TypedObjectReference) (ws : List String) (errs : List (FieldError E))
      → validate_template errors gv reader cue w ref ws errs ≡ reply ws none
      → (template : WorkloadTemplate) × (reader.get_workload_template (template_key w ref)
          ≡ (template, none))
        × (validate_source errors gv reader cue w ws errs template ≡ reply ws none)
  unfolding validate_template
  template_accepts lawful w ref ws errs e =
      let got = reader.get_workload_template (template_key w ref) in
      (
        got.0,
        ground (arith, lawful.ignore_not_found_lem got.1),
        ground (arith, lawful.ignore_not_found_lem got.1),
      )

  loaded_accepts :
      IsLawfulErrors errors
      → (w : Workload) (ref : TypedObjectReference) (ws : List String) (errs : List (FieldError E))
        (i : cue.Instance)
      → IsLoaded w ref i
      → (others : List cue.Instance) × (validate_template errors gv reader cue w ref ws errs
          ≡ validate_instances errors gv reader cue w ws errs (i ∷ others))
  unfolding validate_template validate_source
  loaded_accepts lawful w ref ws errs i l = (
    l.others,
    rw (l.found, validate_template, lawful.ignore_not_found_lem, lawful.is_not_found-nil)
        (ground (arith, l.directory, l.loaded)),
  )

  template_accepts_iff :
      IsLawfulErrors errors
      → (w : Workload) (ref : TypedObjectReference) (ws : List String) (errs : List (FieldError E))
      → (validate_template errors gv reader cue w ref ws errs ≡ reply ws none)
        ↔ IsAcceptedTemplate (errs ≡ []) w ref
  template_accepts_iff lawful w ref ws errs = (
    (λ e.
        let (template, found, from_source) = template_accepts lawful w ref ws errs e in
        let (wd, directory, from_instances) = source_accepts w ws errs template from_source in
        let (i, others, loaded) = instances_nonempty w ws errs _ from_instances in
        (
          i,
          record {
            template = template;
            found = found;
            wd = wd;
            directory = directory;
            others = others;
            loaded = loaded;
          },
          (instance_accepts_iff w ws errs i others).0 (rw loaded at from_instances),
        )),
    λ (i, l, accepted).
        let (others, same) = loaded_accepts lawful w ref ws errs i l in
        same ∙ (instance_accepts_iff w ws errs i others).1 accepted,
  )

  IsAcceptedTemplate-map :
      (P Q : Type 0) (w : Workload) (ref : TypedObjectReference)
      → (P → Q)
      → IsAcceptedTemplate P w ref
      → IsAcceptedTemplate Q w ref
  IsAcceptedTemplate-map P Q w ref f (i, l, inl failed) = (i, l, inl failed)
  IsAcceptedTemplate-map P Q w ref f (i, l, inr (built, p, input)) = (i, l, inr (built, f p, input))

  finish_accepts :
      (w : Workload) (ws : List String) (errs : List (FieldError E))
      → (finish w ws errs ≡ reply ws none) ↔ (errs ≡ [])
  finish_accepts w ws [] = ((λ e. refl), λ e. refl)
  finish_accepts w ws (x ∷ xs) = ((λ e. cc), λ e. cc)

  -- What `validate` accepts: without a template reference, valid metadata; with one, a template that
  -- is found and loaded, and whose build failed or that goes with valid metadata and a valid input.
  abbrev pub IsAccepted : Workload → Type 0
  IsAccepted w =
      ((w.workload_template_ref ≡ none) × IsValidMetadata errors gv reader w)
      ⊎ ((ref : TypedObjectReference) × (w.workload_template_ref ≡ some ref)
          × IsAcceptedTemplate (IsValidMetadata errors gv reader w) w ref)

  -- `validate` accepts a workload, with the warning about the deprecated input if it is set, exactly
  -- when it is as `IsAccepted` says.
  pub validate_accepts_iff :
      IsLawfulErrors errors
      → (w : Workload)
      → (validate errors gv reader cue w ≡ reply (input_warnings w) none) ↔ IsAccepted w
  unfolding validate
  validate_accepts_iff lawful w =
      let (valid, none_found) = metadata_errors-eq-nil_iff errors gv reader lawful w in
      let ws = input_warnings w in
      let errs = metadata_errors errors gv reader w in
      let Valid : Type 0 = IsValidMetadata errors gv reader w in
      elim (Option-cases w.workload_template_ref) [
        | inl absent ↦
            let (to, from) = finish_accepts w ws errs in
            (
              (λ e. inl (absent, valid (to (ground (arith, absent))))),
              elim [
                | inl (_, v) ↦ rw (absent, validate) (from (none_found v))
                | inr (ref, present, _) ↦ cc
              ],
            )
        | inr (ref, present) ↦
            let (to, from) = template_accepts_iff lawful w ref ws errs in
            (
              (λ e. inr (
                ref,
                present,
                IsAcceptedTemplate-map (errs ≡ []) Valid w ref valid (to (ground (arith, present))),
              )),
              elim [
                | inl (absent, _) ↦ cc
                | inr (ref', present', accepted) ↦
                    let same : ref' ≡ ref = cc in
                    let here = subst (IsAcceptedTemplate Valid w) same accepted in
                    rw (present, validate)
                      (from (IsAcceptedTemplate-map Valid (errs ≡ []) w ref none_found here))
              ],
            )
      ]
