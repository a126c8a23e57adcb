-- ===== src/Controllers/Workload/Ready.antt =====
-- `reconcileWorkloadTemplate` of controllers/dockyardsworkload_controller.go as a whole.
use dockyards_flux.Base.{
  true, none, some, ◌≡◌, ◌↔◌, inl, inr, arith, ◌∙◌, ap, Option-cases, Bool-cases, not, ◌&&◌,
  string_dec,
}
use dockyards_flux.Base.Outcome.{err, Result-cases, done}
use dockyards_flux.Api.Constants.{workload_template_type_cue, ready_condition}
use dockyards_flux.Api.Objects.{Cluster, Workload, WorkloadTemplate, TypedObjectReference, is_zero}
use dockyards_flux.Api.Errors.{ApiErrors, IsLawfulErrors}
use dockyards_flux.Api.Client.{GroupVersions}
use dockyards_flux.Api.Cue.{Cue}
use dockyards_flux.Api.Conditions.{Conditions}
use dockyards_flux.Api.Rendering.{Rendering, WorkloadWorld}
use dockyards_flux.Controllers.Workload.{
  reconciled, build_template, apply_template, render, render_reference, reconcile_workload_template,
}
use dockyards_flux.Controllers.Workload.Rendered.{
  IsRendered, apply_template_sound, build_template_sound, build_template-ne-reconciled,
  build_template_complete, apply_fields_complete,
}
use dockyards_flux.Webhooks.Workload.Validate.{template_key, load_template}

module _ {S E : Type 0} (errors : ApiErrors E) (gv : GroupVersions) (conditions : Conditions E)
    (cue : Cue E) (rendering : Rendering cue) (world : WorkloadWorld S E) where
  open cue use {Value, Instance, getwd}

  render_sound :
      (w : Workload) (cluster : Cluster) (template : WorkloadTemplate) (s s' : S)
      → render errors gv conditions cue rendering world w cluster template s ≡ (s', done reconciled)
      → IsRendered errors gv conditions cue rendering world w cluster template s s'
  unfolding render
  render_sound w cluster template s s' h =
      let waits =
        not w.cluster_component && conditions.is_false cluster.conditions ready_condition in
      elim (string_dec template.type workload_template_type_cue) [
        | no other ↦ ground arith
        | yes of_type ↦ elim (Bool-cases waits) [
          | inl waiting ↦ ground (arith, waiting)
          | inr ready ↦ elim (Result-cases getwd) [
            | inr (e, wrong) ↦ ground (arith, ready, wrong)
            | inl (wd, directory) ↦
                let built =
                  build_template gv cue rendering w cluster (load_template cue wd template) in
                let (v, vs, is_built, listed, all) =
                  apply_template_sound errors gv conditions cue rendering world w cluster built s s'
                    (λ verdict e same.
                      build_template-ne-reconciled errors gv conditions cue rendering world w
                        cluster (load_template cue wd template) (e ∙ ap (λ x. err x) same))
                    (ground (arith, ready, directory)) in
                let (instance, loads, fills) =
                  build_template_sound errors gv conditions cue rendering world w cluster
                    (load_template cue wd template) v is_built in
                record {
                  of_type = of_type;
                  ready = ground (arith, ready);
                  wd = wd;
                  directory = directory;
                  instance = instance;
                  loads = loads;
                  filled = v;
                  fills = fills;
                  values = vs;
                  listed = listed;
                  applied_all = all;
                }
          ]
        ]
      ]

  render_complete :
      (w : Workload) (cluster : Cluster) (template : WorkloadTemplate) (s s' : S)
      → IsRendered errors gv conditions cue rendering world w cluster template s s'
      → render errors gv conditions cue rendering world w cluster template s ≡ (s', done reconciled)
  unfolding render apply_template
  render_complete w cluster template s s' r =
      let built =
        build_template_complete errors gv conditions cue rendering world w cluster r.instance
          r.filled r.fills in
      let all =
        apply_fields_complete errors gv conditions cue rendering world w cluster r.values s s'
          r.applied_all in
      ground (arith, r.of_type, r.ready, r.directory, r.loads, built, r.listed, all)

  -- The workload is not being deleted, has an owner cluster and a template reference, and the
  -- template is found and rendered.
  pub record IsReconciled (w : Workload) (s s' : S) : Type 0 where
    pub live : is_zero w.deletion_timestamp ≡ true
    pub cluster : Cluster
    pub owned : world.get_owner_cluster w s ≡ (some cluster, none)
    pub ref : TypedObjectReference
    pub referenced : w.workload_template_ref ≡ some ref
    pub found : (world.get_workload_template (template_key w ref) s).1 ≡ none
    pub rendered :
        IsRendered errors gv conditions cue rendering world w cluster
          (world.get_workload_template (template_key w ref) s).0
          s
          s'

  reference_sound :
      IsLawfulErrors errors
      → (w : Workload) (cluster : Cluster) (ref : TypedObjectReference) (s s' : S)
      → render_reference errors gv conditions cue rendering world w cluster ref s
        ≡ (s', done reconciled)
      → let (template, e) = world.get_workload_template (template_key w ref) s in
        (e ≡ none)
        × (render errors gv conditions cue rendering world w cluster template s
            ≡ (s', done reconciled))
  unfolding render_reference
  reference_sound lawful w cluster ref s s' h =
      let (template, e) = world.get_workload_template (template_key w ref) s in
      let law = lawful.ignore_not_found_lem e in
      elim (Bool-cases (errors.is_not_found e)) [
        | inl missing ↦ ground (arith, missing, law)
        | inr other ↦ elim (Option-cases e) [
          | inl found ↦ (found, ground (arith, other, law, found))
          | inr (problem, wrong) ↦ ground (arith, other, law, wrong)
        ]
      ]

  workload_template_sound :
      IsLawfulErrors errors
      → (w : Workload) (s s' : S)
      → reconcile_workload_template errors gv conditions cue rendering world w s
        ≡ (s', done reconciled)
      → IsReconciled w s s'
  unfolding reconcile_workload_template
  workload_template_sound lawful w s s' h =
      let (owner, e) = world.get_owner_cluster w s in
      elim (Bool-cases (is_zero w.deletion_timestamp)) [
        | inr deleted ↦ ground (arith, deleted)
        | inl live ↦ elim (Option-cases e) [
          | inr (problem, wrong) ↦ ground (arith, live, wrong)
          | inl fine ↦ elim (Option-cases owner) [
            | inl orphan ↦ ground (arith, live, fine, orphan)
            | inr (cluster, owned) ↦ elim (Option-cases w.workload_template_ref) [
              | inl bare ↦ ground (arith, live, fine, owned, bare)
              | inr (ref, referenced) ↦
                  let (found, rendered) =
                    reference_sound lawful w cluster ref s s'
                      (ground (arith, live, fine, owned, referenced)) in
                  record {
                    live = live;
                    cluster = cluster;
                    owned = ground (arith, owned, fine);
                    ref = ref;
                    referenced = referenced;
                    found = found;
                    rendered = render_sound w cluster _ s s' rendered;
                  }
            ]
          ]
        ]
      ]

  -- A reconciliation marks the workload's template as reconciled exactly where the workload is not
  -- being deleted, has an owner cluster and a template reference, the template is found, has the CUE
  -- type and loads as one instance that builds, defines and takes the cluster and the workload and is
  -- valid, the cluster is not unready or the workload is a component of it, and every field of the
  -- result, in order, is concrete, decodes, and was created or patched.
  pub reconcile_workload_template-reconciled_iff :
      IsLawfulErrors errors
      → (w : Workload) (s s' : S)
      → (reconcile_workload_template errors gv conditions cue rendering world w s
          ≡ (s', done reconciled))
        ↔ IsReconciled w s s'
  unfolding reconcile_workload_template render_reference
  reconcile_workload_template-reconciled_iff lawful w s s' = (
    (λ h. workload_template_sound lawful w s s' h),
    λ r.
        let rendered = render_complete w r.cluster _ s s' r.rendered in
        ground (
          arith,
          r.live,
          r.owned,
          r.referenced,
          r.found,
          lawful.ignore_not_found_lem none,
          lawful.is_not_found-nil,
          rendered,
        ),
  )
