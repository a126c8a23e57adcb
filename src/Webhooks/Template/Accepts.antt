-- ===== src/Webhooks/Template/Accepts.antt =====
-- Which templates webhooks/workloadtemplate_webhook.go accepts.
use dockyards_flux.Base.{
  String, true, none, List, [], ◌∷◌, ◌++◌, ◌≡◌, ◌≢◌, ◌↔◌, inl, inr, refl, arith, sym, ◌∙◌, ap,
  Option-cases, All, subst,
}
use dockyards_flux.Base.Outcome.{Result, ok, err, Result-cases}
use dockyards_flux.Api.Objects.{Bytes, WorkloadTemplate}
use dockyards_flux.Api.Errors.{FieldError}
use dockyards_flux.Api.Cue.{Cue}
use dockyards_flux.Webhooks.Workload.Validate.{load_template}
use dockyards_flux.Webhooks.Template.{
  append_build_errors, append_instance_errors, definition_errors, invalid_source, line_at,
  finish_template, validate_workload_template,
}

append-eq-nil : {A : Type 0} (xs ys : List A) → xs ++ ys ≡ [] → (xs ≡ []) × (ys ≡ [])
append-eq-nil [] ys e = (refl, e)
append-eq-nil (x ∷ xs) ys e = ground arith

ok_inj : {E A : Type 0} {x y : A} → ◌≡◌ {A = Result E A} (ok x) (ok y) → x ≡ y
ok_inj e = cc

-- cuelang.org/go/cue/errors documents that Errors gives at least one error for an error that is not
-- nil.
abbrev pub HasErrors : {E : Type 0} → Cue E → Type 0
HasErrors cue = (e : _) → cue.errors e ≢ []

module _ {E : Type 0} (new_error : String → E) (cue : Cue E) where
  open cue use {Value, CueError, Instance}

  -- The instance loads, builds, and defines what the workload controller fills.
  pub record IsUsable (instance : Instance) : Type 0 where
    pub loads : cue.instance_err instance ≡ none
    pub builds : cue.err (cue.build_instance instance) ≡ none
    pub has_cluster : cue.exists (cue.lookup_def (cue.build_instance instance) "#cluster") ≡ true
    pub has_workload : cue.exists (cue.lookup_def (cue.build_instance instance) "#workload") ≡ true

  definition_errors-eq-nil :
      (v : Value)
      → definition_errors new_error cue v ≡ []
      → (cue.exists (cue.lookup_def v "#cluster") ≡ true)
        × (cue.exists (cue.lookup_def v "#workload") ≡ true)
  definition_errors-eq-nil v e = (ground arith, ground arith)

  append_build_errors-eq-nil :
      (source : Bytes) (es : List CueError) (errs : List (FieldError E))
      → append_build_errors new_error cue source es errs ≡ ok []
      → (es ≡ []) × (errs ≡ [])
  unfolding append_build_errors
  append_build_errors-eq-nil source [] errs h = (refl, ok_inj h)
  append_build_errors-eq-nil source (e ∷ es) errs h =
      elim (Result-cases
        (invalid_source new_error cue e (line_at new_error cue source (cue.offset e)))) [
          | inl (error, fine) ↦
              let (_, nothing) =
                append_build_errors-eq-nil source es (errs ++ error ∷ []) (ground (arith, fine)) in
              ground (arith, append-eq-nil errs (error ∷ []) nothing)
          | inr (cause, wrong) ↦ ground (arith, wrong)
        ]

  append_instance_errors_sound :
      HasErrors cue
      → (source : Bytes) (instances : List Instance) (errs : List (FieldError E))
      → append_instance_errors new_error cue source instances errs ≡ ok []
      → (errs ≡ []) × All IsUsable instances
  unfolding append_instance_errors
  append_instance_errors_sound lawful source [] errs h = (ok_inj h, tt)
  append_instance_errors_sound lawful source (i ∷ is) errs h =
      let v = cue.build_instance i in
      elim (Option-cases (cue.instance_err i)) [
        | inr (e, unloaded) ↦
            elim (Result-cases
              (invalid_source new_error cue e (line_at new_error cue source (cue.offset e)))) [
                | inl (error, fine) ↦
                    let nothing : errs ++ error ∷ [] ≡ [] =
                      ok_inj {E = E} (ground (arith, unloaded, fine)) in
                    ground (arith, append-eq-nil errs (error ∷ []) nothing)
                | inr (cause, wrong) ↦ ground (arith, unloaded, wrong)
              ]
        | inl loaded ↦ elim (Option-cases (cue.err v)) [
          | inr (e, unbuilt) ↦
              let (nothing, _) =
                append_build_errors-eq-nil source (cue.errors e) errs
                  (ground (arith, loaded, unbuilt)) in
              absurd (lawful e nothing)
          | inl built ↦
              let (nothing, usable) =
                append_instance_errors_sound lawful source is
                  (errs ++ definition_errors new_error cue v) (ground (arith, loaded, built)) in
              let (before, defined) = append-eq-nil errs _ nothing in
              let (has_cluster, has_workload) = definition_errors-eq-nil v defined in
              (
                before,
                (
                  record {
                    loads = loaded;
                    builds = built;
                    has_cluster = has_cluster;
                    has_workload = has_workload;
                  },
                  usable,
                ),
              )
        ]
      ]

  append_instance_errors_complete :
      (source : Bytes) (instances : List Instance)
      → All IsUsable instances
      → append_instance_errors new_error cue source instances [] ≡ ok []
  unfolding append_instance_errors
  append_instance_errors_complete source [] usable = refl
  append_instance_errors_complete source (i ∷ is) (usable, rest) = ground (
    arith,
    usable.loads,
    usable.builds,
    usable.has_cluster,
    usable.has_workload,
    append_instance_errors_complete source is rest,
  )

  -- The template's source was loaded, and every instance is usable.
  abbrev pub IsUsableTemplate : WorkloadTemplate → Type 0
  IsUsableTemplate t = (wd : String) × (cue.getwd ≡ ok wd) × All IsUsable (load_template cue wd t)

  finish_template-none :
      (t : WorkloadTemplate) (result : Result E (List (FieldError E)))
      → finish_template new_error cue t result ≡ none
      → result ≡ ok []
  finish_template-none t (ok []) h = refl
  finish_template-none t (ok (e ∷ es)) h = ground arith
  finish_template-none t (err cause) h = ground arith

  -- A template is accepted exactly when every instance that its source loads as has no load error,
  -- builds, and defines both #cluster and #workload.
  pub validate_workload_template_accepts_iff :
      HasErrors cue
      → (t : WorkloadTemplate)
      → (validate_workload_template new_error cue t ≡ none) ↔ IsUsableTemplate t
  unfolding validate_workload_template
  validate_workload_template_accepts_iff lawful t = (
    (λ h. elim (Result-cases cue.getwd) [
      | inr (cause, wrong) ↦ ground (arith, wrong)
      | inl (wd, directory) ↦
          let result = append_instance_errors new_error cue t.source (load_template cue wd t) [] in
          let fine = finish_template-none t result (ground (arith, directory)) in
          (wd, directory, (append_instance_errors_sound lawful t.source _ [] fine).1)
    ]),
    λ (wd, directory, usable). ground (
      arith,
      directory,
      append_instance_errors_complete t.source (load_template cue wd t) usable,
    ),
  )

  -- The first instance of an accepted template.
  pub accepted_first :
      HasErrors cue
      → (t : WorkloadTemplate) (wd : String) (first : Instance) (others : List Instance)
      → validate_workload_template new_error cue t ≡ none
      → cue.getwd ≡ ok wd
      → load_template cue wd t ≡ first ∷ others
      → IsUsable first
  accepted_first lawful t wd first others accepted directory loaded =
      let (wd', directory', usable) =
        (validate_workload_template_accepts_iff lawful t).0 accepted in
      let same : wd' ≡ wd = ok_inj (sym directory' ∙ directory) in
      let loads : load_template cue wd' t ≡ first ∷ others =
        ap (λ d. load_template cue d t) same ∙ loaded in
      (subst (λ is. All IsUsable is) loads usable).0
