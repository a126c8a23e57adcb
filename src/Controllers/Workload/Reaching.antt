-- ===== src/Controllers/Workload/Reaching.antt =====
-- How far `reconcileWorkloadTemplate` of controllers/dockyardsworkload_controller.go comes: to the loop
-- over the fields of the template, or not.
use dockyards_flux.Base.{
  String, true, false, none, some, List, [], ◌∷◌, ◌≡◌, ◌⊎◌, inl, inr, arith, sym, subst, ◌≢◌, ◌∙◌,
  Option-cases, Bool-cases, not, ◌&&◌, string_dec,
}
use dockyards_flux.Base.Outcome.{ok, Result-cases, Outcome, panicked}
use dockyards_flux.Api.Constants.{workload_template_type_cue, ready_condition}
use dockyards_flux.Api.Objects.{Cluster, Workload, WorkloadTemplate, TypedObjectReference, is_zero}
use dockyards_flux.Api.Errors.{ApiErrors, IsLawfulErrors}
use dockyards_flux.Api.Client.{GroupVersions}
use dockyards_flux.Api.Cue.{Cue}
use dockyards_flux.Api.Conditions.{Conditions}
use dockyards_flux.Api.Rendering.{Rendering, WorkloadWorld}
use dockyards_flux.Controllers.Workload.{
  Verdict, build_template, apply_fields, apply_template, render, render_reference,
  reconcile_workload_template,
}
use dockyards_flux.Controllers.Workload.Rendered.{
  IsFilled, build_template_sound, build_template_complete,
}
use dockyards_flux.Webhooks.Workload.Validate.{template_key, load_template}

module _ {S E : Type 0} (errors : ApiErrors E) (gv : GroupVersions) (conditions : Conditions E)
    (cue : Cue E) (rendering : Rendering cue) (world : WorkloadWorld S E) where
  open cue use {Value, Instance, getwd}
  open rendering use {fields}

  -- The template is a CUE template that may be rendered, and the values are the fields of its only
  -- instance, filled with the cluster and the workload.
  pub record IsListed (w : Workload) (cluster : Cluster) (template : WorkloadTemplate)
      (values : List Value) : Type 0 where
    pub of_type : template.type ≡ workload_template_type_cue
    pub ready :
        (w.cluster_component ≡ true)
        ⊎ (conditions.is_false cluster.conditions ready_condition ≡ false)
    pub wd : String
    pub directory : getwd ≡ ok wd
    pub instance : Instance
    pub loads : load_template cue wd template ≡ instance ∷ []
    pub filled : Value
    pub fills : IsFilled errors gv conditions cue rendering world w cluster instance filled
    pub listed : fields filled ≡ ok values

  -- The workload is not being deleted, has the owner cluster and a template reference, and the values
  -- are those of the template that is found.
  pub record IsReached (w : Workload) (s : S) (cluster : Cluster) (values : List Value)
      : Type 0 where
    pub live : is_zero w.deletion_timestamp ≡ true
    pub owned : world.get_owner_cluster w s ≡ (some cluster, none)
    pub ref : TypedObjectReference
    pub referenced : w.workload_template_ref ≡ some ref
    pub found : (world.get_workload_template (template_key w ref) s).1 ≡ none
    pub listed : IsListed w cluster (world.get_workload_template (template_key w ref) s).0 values

  -- Nothing was changed, and there was no panic.
  abbrev pub IsIdle : S × Outcome E (Verdict E) → S → Type 0
  IsIdle t s = (t.0 ≡ s) × (t.1 ≢ panicked)

  render-cases :
      (w : Workload) (cluster : Cluster) (template : WorkloadTemplate) (s : S)
      → let t = render errors gv conditions cue rendering world w cluster template s in
        IsIdle t s
        ⊎ ((values : List Value) × IsListed w cluster template values
            × (t ≡ apply_fields errors gv conditions cue rendering world w cluster values s))
  unfolding render apply_template
  render-cases w cluster template s =
      let waits =
        not w.cluster_component && conditions.is_false cluster.conditions ready_condition in
      elim (string_dec template.type workload_template_type_cue) [
        | no other ↦ inl (ground arith, λ e. ground (arith, e))
        | yes of_type ↦ elim (Bool-cases waits) [
          | inl waiting ↦ inl (ground (arith, waiting), λ e. ground (arith, waiting, e))
          | inr ready ↦ elim (Result-cases getwd) [
            | inr (e, wrong) ↦
                inl (ground (arith, ready, wrong), λ e. ground (arith, ready, wrong, e))
            | inl (wd, directory) ↦
                let instances = load_template cue wd template in
                elim (Result-cases (build_template gv cue rendering w cluster instances)) [
                  | inr (verdict, wrong) ↦ inl (
                    ground (arith, ready, directory, wrong),
                    λ e. ground (arith, ready, directory, wrong, e),
                  )
                  | inl (v, built) ↦ elim (Result-cases (fields v)) [
                    | inr (e, wrong) ↦ inl (
                      ground (arith, ready, directory, built, wrong),
                      λ e. ground (arith, ready, directory, built, wrong, e),
                    )
                    | inl (vs, listed) ↦
                        let (instance, loads, fills) =
                          build_template_sound errors gv conditions cue rendering world w cluster
                            instances v built in
                        inr (
                          vs,
                          record {
                            of_type = of_type;
                            ready = ground (arith, ready);
                            wd = wd;
                            directory = directory;
                            instance = instance;
                            loads = loads;
                            filled = v;
                            fills = fills;
                            listed = listed;
                          },
                          ground (arith, ready, directory, built, listed),
                        )
                  ]
                ]
          ]
        ]
      ]

  reference-cases :
      IsLawfulErrors errors
      → (w : Workload) (cluster : Cluster) (ref : TypedObjectReference) (s : S)
      → let t = render_reference errors gv conditions cue rendering world w cluster ref s in
        let (template, e) = world.get_workload_template (template_key w ref) s in
        IsIdle t s
        ⊎ ((e ≡ none) × (t ≡ render errors gv conditions cue rendering world w cluster template s))
  unfolding render_reference
  reference-cases lawful w cluster ref s =
      let (template, e) = world.get_workload_template (template_key w ref) s in
      let law = lawful.ignore_not_found_lem e in
      elim (Bool-cases (errors.is_not_found e)) [
        | inl missing ↦ inl (ground (arith, missing, law), λ e. ground (arith, missing, law, e))
        | inr other ↦ elim (Option-cases e) [
          | inl found ↦ inr (found, ground (arith, other, law, found))
          | inr (problem, wrong) ↦
              inl (ground (arith, other, law, wrong), λ e. ground (arith, other, law, wrong, e))
        ]
      ]

  reached :
      IsLawfulErrors errors
      → (w : Workload) (cluster : Cluster) (ref : TypedObjectReference) (s : S)
      → is_zero w.deletion_timestamp ≡ true
      → world.get_owner_cluster w s ≡ (some cluster, none)
      → w.workload_template_ref ≡ some ref
      → let t = reconcile_workload_template errors gv conditions cue rendering world w s in
        t ≡ render_reference errors gv conditions cue rendering world w cluster ref s
        → IsIdle t s
          ⊎ ((cluster : Cluster) × (values : List Value) × IsReached w s cluster values
              × (t ≡ apply_fields errors gv conditions cue rendering world w cluster values s))
  reached lawful w cluster ref s live owned referenced same =
      elim (reference-cases lawful w cluster ref s) [
        | inl kept ↦ inl (subst (λ t. IsIdle t s) (sym same) kept)
        | inr (found, same') ↦
            let template = (world.get_workload_template (template_key w ref) s).0 in
            elim (render-cases w cluster template s) [
              | inl kept ↦ inl (subst (λ t. IsIdle t s) (sym (same ∙ same')) kept)
              | inr (values, listed, same'') ↦ inr (
                cluster,
                values,
                record {
                  live = live;
                  owned = owned;
                  ref = ref;
                  referenced = referenced;
                  found = found;
                  listed = listed;
                },
                same ∙ same' ∙ same'',
              )
            ]
      ]

  -- A reconciliation of a workload's template, with whatever result, either changes nothing and does not
  -- panic, or it is the loop over the fields of the template that it found, loaded and filled for the
  -- workload.
  pub reconcile_workload_template-cases :
      IsLawfulErrors errors
      → (w : Workload) (s : S)
      → let t = reconcile_workload_template errors gv conditions cue rendering world w s in
        IsIdle t s
        ⊎ ((cluster : Cluster) × (values : List Value) × IsReached w s cluster values
            × (t ≡ apply_fields errors gv conditions cue rendering world w cluster values s))
  unfolding reconcile_workload_template
  reconcile_workload_template-cases lawful w s =
      let (owner, e) = world.get_owner_cluster w s in
      elim (Bool-cases (is_zero w.deletion_timestamp)) [
        | inr deleted ↦ inl (ground (arith, deleted), λ e. ground (arith, deleted, e))
        | inl live ↦ elim (Option-cases e) [
          | inr (problem, wrong) ↦
              inl (ground (arith, live, wrong), λ e. ground (arith, live, wrong, e))
          | inl fine ↦ elim (Option-cases owner) [
            | inl orphan ↦
                inl (ground (arith, live, fine, orphan), λ e. ground (arith, live, fine, orphan, e))
            | inr (cluster, owned) ↦ elim (Option-cases w.workload_template_ref) [
              | inl bare ↦ inl (
                ground (arith, live, fine, owned, bare),
                λ e. ground (arith, live, fine, owned, bare, e),
              )
              | inr (ref, referenced) ↦
                  reached lawful w cluster ref s live (ground (arith, owned, fine)) referenced
                    (ground (arith, live, fine, owned, referenced))
            ]
          ]
        ]
      ]

  -- The other way round: where a template can be found, loaded and filled for the workload, its
  -- reconciliation is the loop over those fields.
  pub IsReached-apply_fields :
      IsLawfulErrors errors
      → (w : Workload) (s : S) (cluster : Cluster) (values : List Value)
      → IsReached w s cluster values
      → reconcile_workload_template errors gv conditions cue rendering world w s
        ≡ apply_fields errors gv conditions cue rendering world w cluster values s
  unfolding reconcile_workload_template render_reference render apply_template
  IsReached-apply_fields lawful w s cluster values r =
      let l = r.listed in
      let built =
        build_template_complete errors gv conditions cue rendering world w cluster l.instance
          l.filled l.fills in
      ground (
        arith,
        r.live,
        r.owned,
        r.referenced,
        r.found,
        lawful.ignore_not_found_lem none,
        lawful.is_not_found-nil,
        l.of_type,
        l.ready,
        l.directory,
        l.loads,
        built,
        l.listed,
      )
