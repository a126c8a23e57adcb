-- ===== src/Examples/Objects.antt =====
-- A reconciliation of a workload in a cluster that holds an object that its template no longer renders.
use dockyards_flux.Base.{none, some, [], ◌∷◌, ◌≡◌, ◌≢◌, ◌⊎◌, inr, refl, arith, ap, ◌∙◌, string_dec}
use dockyards_flux.Base.Outcome.{done}
use dockyards_flux.Base.View.{View, put}
use dockyards_flux.Api.Objects.{ObjectKey}
use dockyards_flux.Api.Constants.{workload_template_type_cue, kustomization_kind, workload_kind}
use dockyards_flux.Api.World.{OperationResult, updated}
use dockyards_flux.Webhooks.Workload.Validate.{template_key, load_template}
use dockyards_flux.Api.Rendering.{
  Unstructured, ResourceKey, resource_key, same_resource, same_resource-IsKeyTest, SetsSpec,
}
use dockyards_flux.Controllers.Workload.{
  reconcile_workload_template, apply_fields, apply_template, build_template, fill_template,
  fill_object, render, render_reference,
}
use dockyards_flux.Controllers.Workload.Reconciling.{reconcile_workload}
use dockyards_flux.Controllers.Workload.Rendered.{finished, applied}
use dockyards_flux.Controllers.Workload.Ready.{IsReconciled}
use dockyards_flux.Controllers.Workload.Desired.{desired_view}
use dockyards_flux.Controllers.Workload.Kept.{
  workload_resource, PatchesOnly, IsSame, IsSoFar, reconcile_workload-IsSoFar,
}
use dockyards_flux.Controllers.Workload.Refined.{reconcile_workload-desired_view}
use dockyards_flux.Controllers.Workload.Untouched.{IsOne}
use dockyards_flux.Controllers.Workload.Rounds.{Rounds, before_all, round, Rounds-IsStill}
use dockyards_flux.Examples.Setting.{
  api_errors, api_errors-IsLawfulErrors, group_versions, cue, prod, with_input,
}
use dockyards_flux.Examples.Store.{create_or_patch, stored, create_or_patch-IsLawful}
use dockyards_flux.Examples.Rendering.{
  rendering, conditions, workload_world, rendered_object, template, template_loads,
}
use dockyards_flux.Examples.Webhook.{good, reference}

pub rendering-SetsSpec : SetsSpec rendering
rendering-SetsSpec nested u u' e = ground arith

pub workload_world-PatchesOnly :
    PatchesOnly group_versions workload_world (stored same_resource resource_key)
workload_world-PatchesOnly before after s k ne = refl

-- An object of an earlier version of the template.
abbrev old_object : Unstructured
old_object = record rendered_object { kind = kustomization_kind }

abbrev before : View ResourceKey Unstructured
before = put same_resource (resource_key old_object) old_object (λ key. none)

abbrev pub workload_key : ObjectKey
workload_key = record { namespace = "team"; name = "app" }

abbrev pub reconcile : View ResourceKey Unstructured → View ResourceKey Unstructured
reconcile s =
    (reconcile_workload api_errors group_versions conditions cue rendering workload_world
      workload_key s).0

abbrev pub render_good : View ResourceKey Unstructured → View ResourceKey Unstructured
render_good s =
    (reconcile_workload_template api_errors group_versions conditions cue rendering workload_world
      good s).0

pub template_found :
    (s : View ResourceKey Unstructured)
    → workload_world.get_workload_template (template_key good (reference "input")) s
      ≡ (template, none)
unfolding string_dec
template_found s = refl

pub template_type : template.type ≡ workload_template_type_cue
unfolding string_dec
template_type = refl

-- All that marks the workload as reconciled.
abbrev pub good-IsReconciled :
    (s : View ResourceKey Unstructured) (op : OperationResult)
    → create_or_patch same_resource resource_key rendered_object
        (fill_object group_versions cue rendering good (prod "prod") with_input)
        s
      ≡ (render_good s, done op)
    → IsReconciled api_errors group_versions conditions cue rendering workload_world good s
        (render_good s)
good-IsReconciled s op result = record {
  live = refl;
  cluster = prod "prod";
  owned = refl;
  ref = reference "input";
  referenced = refl;
  found = ap (λ x. x.1) (template_found s);
  rendered = record {
    of_type = ap (λ x. x.0.type) (template_found s) ∙ template_type;
    ready = inr refl;
    wd = "/srv/app";
    directory = refl;
    instance = 1 ∷ [];
    loads = ap (λ x. load_template cue "/srv/app" x.0) (template_found s) ∙ template_loads;
    filled = with_input;
    fills = record {
      builds = refl;
      has_workload = refl;
      has_cluster = refl;
      with_cluster = with_input;
      cluster_filled = refl;
      cluster_fits = refl;
      workload_filled = refl;
      workload_fits = refl;
      is_valid = refl;
    };
    values = with_input ∷ [];
    listed = refl;
    applied_all =
        applied with_input [] rendered_object op s (render_good s) (render_good s) refl refl result
          (finished (render_good s));
  };
}

before_rendered :
    create_or_patch same_resource resource_key rendered_object
      (fill_object group_versions cue rendering good (prod "prod") with_input)
      before
    ≡ (render_good before, done updated)
unfolding reconcile_workload_template render_reference render apply_template apply_fields
    build_template fill_template fill_object create_or_patch string_dec
before_rendered = refl

reconcile_workload-desired_view_example :
    IsSame api_errors group_versions conditions cue rendering workload_world
      (stored same_resource resource_key)
      (create_or_patch-IsLawful same_resource resource_key same_resource-IsKeyTest)
      rendering-SetsSpec
      workload_world-PatchesOnly
      api_errors-IsLawfulErrors
      good
      (reconcile before)
      (desired_view group_versions cue rendering good (prod "prod") (with_input ∷ []) before)
reconcile_workload-desired_view_example =
    reconcile_workload-desired_view api_errors group_versions conditions cue rendering
      workload_world (stored same_resource resource_key)
      (create_or_patch-IsLawful same_resource resource_key same_resource-IsKeyTest)
      rendering-SetsSpec workload_world-PatchesOnly api_errors-IsLawfulErrors workload_key before
      (render_good before) refl refl (good-IsReconciled before updated before_rendered)

reconcile_workload-IsSoFar_example :
    IsSame api_errors group_versions conditions cue rendering workload_world
      (stored same_resource resource_key)
      (create_or_patch-IsLawful same_resource resource_key same_resource-IsKeyTest)
      rendering-SetsSpec
      workload_world-PatchesOnly
      api_errors-IsLawfulErrors
      good
      (reconcile before)
      before
    ⊎ IsSoFar api_errors group_versions conditions cue rendering workload_world
        (stored same_resource resource_key)
        (create_or_patch-IsLawful same_resource resource_key same_resource-IsKeyTest)
        rendering-SetsSpec
        workload_world-PatchesOnly
        api_errors-IsLawfulErrors
        good
        before
        (reconcile before)
reconcile_workload-IsSoFar_example =
    reconcile_workload-IsSoFar api_errors group_versions conditions cue rendering workload_world
      (stored same_resource resource_key)
      (create_or_patch-IsLawful same_resource resource_key same_resource-IsKeyTest)
      rendering-SetsSpec workload_world-PatchesOnly api_errors-IsLawfulErrors workload_key before

kustomization_ne_workload : kustomization_kind ≢ workload_kind
kustomization_ne_workload e = cc

kinds_ne : resource_key old_object ≢ workload_resource group_versions good
kinds_ne e = kustomization_ne_workload (ap (λ k. k.kind) e)

old_stored : before (resource_key old_object) ≡ some old_object
unfolding string_dec
old_stored = refl

-- Two reconciliations of the workload.
two-Rounds :
    Rounds api_errors group_versions conditions cue rendering workload_world
      (stored same_resource resource_key)
      (create_or_patch-IsLawful same_resource resource_key same_resource-IsKeyTest)
      rendering-SetsSpec
      workload_world-PatchesOnly
      api_errors-IsLawfulErrors
      (resource_key old_object)
      before
      (reconcile (reconcile before))
two-Rounds =
    round workload_key before (reconcile before) (reconcile (reconcile before))
      (round workload_key before before (reconcile before) (before_all before) kinds_ne refl)
      kinds_ne refl

Rounds-IsStill_example :
    (u : Unstructured) × (reconcile (reconcile before) (resource_key old_object) ≡ some u)
    × IsOne old_object u
Rounds-IsStill_example =
    Rounds-IsStill api_errors group_versions conditions cue rendering workload_world
      (stored same_resource resource_key)
      (create_or_patch-IsLawful same_resource resource_key same_resource-IsKeyTest)
      rendering-SetsSpec workload_world-PatchesOnly api_errors-IsLawfulErrors
      (resource_key old_object) old_object before (reconcile (reconcile before)) two-Rounds
      old_stored
