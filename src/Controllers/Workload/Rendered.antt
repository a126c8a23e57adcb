-- ===== src/Controllers/Workload/Rendered.antt =====
-- When `reconcileWorkloadTemplate` of controllers/dockyardsworkload_controller.go marks a workload as
-- reconciled.
use dockyards_flux.Base.{
  String, true, false, none, List, [], ◌∷◌, ◌≡◌, ◌≢◌, ◌⊎◌, inl, inr, refl, arith, ◌∙◌, ap, subst,
  Option-cases,
}
use dockyards_flux.Base.Outcome.{Result, ok, err, Result-cases, Outcome, done, failed, panicked}
use dockyards_flux.Api.Constants.{workload_template_type_cue, ready_condition}
use dockyards_flux.Api.Objects.{Cluster, Workload, WorkloadTemplate}
use dockyards_flux.Api.Errors.{ApiErrors}
use dockyards_flux.Api.Client.{GroupVersions}
use dockyards_flux.Api.Cue.{Cue}
use dockyards_flux.Api.Conditions.{Conditions}
use dockyards_flux.Api.Rendering.{
  Rendering, WorkloadWorld, Unstructured, fill_cluster, fill_workload,
}
use dockyards_flux.Api.World.{OperationResult}
use dockyards_flux.Controllers.Workload.{
  Verdict, reconciled, fill_object, fill_template, build_template, after_operation, apply_fields,
  apply_template,
}
use dockyards_flux.Webhooks.Workload.Validate.{load_template}

after_operation-reconciled :
    {S E : Type 0} (next : S → S × Outcome E (Verdict E)) (result : S × Outcome E OperationResult)
    (s' : S)
    → after_operation next result ≡ (s', done reconciled)
    → (mid : S) × (op : OperationResult) × (result ≡ (mid, done op))
      × (next mid ≡ (s', done reconciled))
after_operation-reconciled next (s, done op) s' h = (s, op, refl, h)
after_operation-reconciled next (s, failed e) s' h = ground arith
after_operation-reconciled next (s, panicked) s' h = ground arith

module _ {S E : Type 0} (errors : ApiErrors E) (gv : GroupVersions) (conditions : Conditions E)
    (cue : Cue E) (rendering : Rendering cue) (world : WorkloadWorld S E) (w : Workload)
    (cluster : Cluster) where
  open cue use {Value, Instance, build_instance, lookup_def, getwd}
  open rendering use {fill_path, validate, validate_concrete, fields, decode_object}

  -- Every value is concrete and an object, and was created or patched, one after the other.
  pub data Applied : List Value → S → S → Type 0 where
    finished : (s : S) → Applied [] s s
    applied :
        (v : Value) (vs : List Value) (u : Unstructured) (op : OperationResult) (s mid s' : S)
        → validate_concrete v ≡ none
        → decode_object v ≡ ok u
        → world.create_or_patch u (fill_object gv cue rendering w cluster v) s ≡ (mid, done op)
        → Applied vs mid s'
        → Applied (v ∷ vs) s s'

  pub apply_fields_sound :
      (vs : List Value) (s s' : S)
      → apply_fields errors gv conditions cue rendering world w cluster vs s ≡ (s', done reconciled)
      → Applied vs s s'
  unfolding apply_fields
  apply_fields_sound [] s s' h = subst (λ t. Applied [] s t) (ap (λ x. x.0) h) (finished s)
  apply_fields_sound (v ∷ vs) s s' h = elim (Option-cases (validate_concrete v)) [
    | inr (e, vague) ↦ ground (arith, vague)
    | inl concrete ↦ elim (Result-cases (decode_object v)) [
      | inr (e, shapeless) ↦ ground (arith, concrete, shapeless)
      | inl (u, decoded) ↦
          let (mid, op, result, rest) =
            after_operation-reconciled
              (λ t. apply_fields errors gv conditions cue rendering world w cluster vs t)
              (world.create_or_patch u (fill_object gv cue rendering w cluster v) s) s'
              (ground (arith, concrete, decoded)) in
          applied v vs u op s mid s' concrete decoded result (apply_fields_sound vs mid s' rest)
    ]
  ]

  pub apply_fields_complete :
      (vs : List Value) (s s' : S)
      → Applied vs s s'
      → apply_fields errors gv conditions cue rendering world w cluster vs s ≡ (s', done reconciled)
  unfolding apply_fields
  apply_fields_complete _ _ _ (finished s) = refl
  apply_fields_complete _ _ _ (applied v vs u op s mid s' concrete decoded result rest) =
      ground (arith, concrete, decoded, result, apply_fields_complete vs mid s' rest)

  -- The instance builds, and the value with the cluster and the workload filled in is valid.
  pub record IsFilled (instance : Instance) (v : Value) : Type 0 where
    pub builds : cue.err (build_instance instance) ≡ none
    pub has_workload : cue.err (lookup_def (build_instance instance) "#workload") ≡ none
    pub has_cluster : cue.err (lookup_def (build_instance instance) "#cluster") ≡ none
    pub with_cluster : Value
    pub cluster_filled :
        with_cluster ≡ fill_path (build_instance instance) "#cluster" (fill_cluster cluster)
    pub cluster_fits : cue.err with_cluster ≡ none
    pub workload_filled : v ≡ fill_path with_cluster "#workload" (fill_workload w)
    pub workload_fits : cue.err v ≡ none
    pub is_valid : validate v ≡ none

  fill_template_sound :
      (instance : Instance) (v : Value)
      → cue.err (build_instance instance) ≡ none
      → fill_template gv cue rendering w cluster (build_instance instance) ≡ ok v
      → IsFilled instance v
  unfolding fill_template
  fill_template_sound instance v builds h =
      let value = build_instance instance in
      let v1 = fill_path value "#cluster" (fill_cluster cluster) in
      let v2 = fill_path v1 "#workload" (fill_workload w) in
      elim (Option-cases (cue.err (lookup_def value "#workload"))) [
        | inr (e, wrong) ↦ ground (arith, wrong)
        | inl has_workload ↦ elim (Option-cases (cue.err (lookup_def value "#cluster"))) [
          | inr (e, wrong) ↦ ground (arith, has_workload, wrong)
          | inl has_cluster ↦ elim (Option-cases (cue.err v1)) [
            | inr (e, wrong) ↦ ground (arith, has_workload, has_cluster, wrong)
            | inl fits ↦ elim (Option-cases (cue.err v2)) [
              | inr (e, wrong) ↦ ground (arith, has_workload, has_cluster, fits, wrong)
              | inl fits' ↦ elim (Option-cases (validate v2)) [
                | inr (e, wrong) ↦ ground (arith, has_workload, has_cluster, fits, fits', wrong)
                | inl is_valid ↦
                    let same : v ≡ v2 =
                      ground (arith, has_workload, has_cluster, fits, fits', is_valid) in
                    record {
                      builds = builds;
                      has_workload = has_workload;
                      has_cluster = has_cluster;
                      with_cluster = v1;
                      cluster_filled = refl;
                      cluster_fits = fits;
                      workload_filled = same;
                      workload_fits = ap (λ x. cue.err x) same ∙ fits';
                      is_valid = ap (λ x. validate x) same ∙ is_valid;
                    }
              ]
            ]
          ]
        ]
      ]

  fill_template_complete :
      (instance : Instance) (v : Value)
      → IsFilled instance v
      → fill_template gv cue rendering w cluster (build_instance instance) ≡ ok v
  unfolding fill_template
  fill_template_complete instance v filled = ground (
    arith, filled.has_workload, filled.has_cluster, filled.cluster_filled, filled.cluster_fits,
    filled.workload_filled, filled.workload_fits, filled.is_valid,
  )

  pub build_template_sound :
      (instances : List Instance) (v : Value)
      → build_template gv cue rendering w cluster instances ≡ ok v
      → (instance : Instance) × (instances ≡ instance ∷ []) × IsFilled instance v
  unfolding build_template
  build_template_sound [] v h = ground arith
  build_template_sound (i ∷ []) v h = elim (Option-cases (cue.err (build_instance i))) [
    | inr (e, wrong) ↦ ground (arith, wrong)
    | inl builds ↦ (i, refl, fill_template_sound i v builds (ground (arith, builds)))
  ]
  build_template_sound (a ∷ b ∷ rest) v h = ground arith

  -- The template is a CUE template, the cluster is not known to be unready or the workload is one of
  -- its components, the source loads as one instance, which is filled, and all its fields are applied.
  pub record IsRendered (template : WorkloadTemplate) (s s' : S) : Type 0 where
    pub of_type : template.type ≡ workload_template_type_cue
    pub ready :
        (w.cluster_component ≡ true)
        ⊎ (conditions.is_false cluster.conditions ready_condition ≡ false)
    pub wd : String
    pub directory : getwd ≡ ok wd
    pub instance : Instance
    pub loads : load_template cue wd template ≡ instance ∷ []
    pub filled : Value
    pub fills : IsFilled instance filled
    pub values : List Value
    pub listed : fields filled ≡ ok values
    pub applied_all : Applied values s s'

  pub apply_template_sound :
      (built : Result (Verdict E) Value) (s s' : S)
      → ((verdict : Verdict E) → built ≡ err verdict → verdict ≢ reconciled)
      → apply_template errors gv conditions cue rendering world w cluster built s
        ≡ (s', done reconciled)
      → (v : Value) × (vs : List Value) × (built ≡ ok v) × (fields v ≡ ok vs) × Applied vs s s'
  unfolding apply_template
  apply_template_sound (err verdict) s s' failing h = absurd (failing verdict refl (ground arith))
  apply_template_sound (ok v) s s' failing h = elim (Result-cases (fields v)) [
    | inr (e, wrong) ↦ ground (arith, wrong)
    | inl (vs, listed) ↦ (v, vs, refl, listed, apply_fields_sound vs s s' (ground (arith, listed)))
  ]

  fill_template-ne-reconciled :
      (value : Value) → fill_template gv cue rendering w cluster value ≢ err reconciled
  unfolding fill_template
  fill_template-ne-reconciled value h = ground arith

  pub build_template-ne-reconciled :
      (instances : List Instance)
      → build_template gv cue rendering w cluster instances ≢ err reconciled
  unfolding build_template
  build_template-ne-reconciled [] h = ground arith
  build_template-ne-reconciled (i ∷ []) h = elim (Option-cases (cue.err (build_instance i))) [
    | inr (e, wrong) ↦ ground (arith, wrong)
    | inl builds ↦ fill_template-ne-reconciled (build_instance i) (ground (arith, builds))
  ]
  build_template-ne-reconciled (a ∷ b ∷ rest) h = ground arith

  pub build_template_complete :
      (instance : Instance) (v : Value)
      → IsFilled instance v
      → build_template gv cue rendering w cluster (instance ∷ []) ≡ ok v
  unfolding build_template
  build_template_complete instance v filled =
      ground (arith, filled.builds, fill_template_complete instance v filled)
