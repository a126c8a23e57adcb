-- ===== src/Examples/Panics.antt =====
-- A template with a byte slice below a list of a spec, and what is below the keys of a spec.
use dockyards_flux.Base.{
  false, some, List, [], ◌∷◌, ◌≡◌, ◌≢◌, refl, arith, ap, subst, All, inr, string_dec, ◌∙◌,
  if◌then◌else◌,
}
use dockyards_flux.Base.Outcome.{done, ok, panicked}
use dockyards_flux.Api.Objects.{Bytes, Cluster}
use dockyards_flux.Api.Rendering.{
  Rendering, resource_key, same_resource, same_resource-IsKeyTest, Entries, entry, no_entries,
  array, value, no_values, bytes, object,
}
use dockyards_flux.Controllers.Workload.{
  reconciled, reconcile_workload_template, apply_fields, apply_template, build_template,
  fill_template, fill_object, render, render_reference,
}
use dockyards_flux.Controllers.Workload.Json.{ensure_valid_json}
use dockyards_flux.Controllers.Workload.Lists.{
  is_json, is_settable, value_is_settable, list_is_json, value_is_json, PanicsOffJson,
}
use dockyards_flux.Controllers.Workload.Paths.{find, at, IsKept, AreBytes, at-ensure_valid_json}
use dockyards_flux.Base.Partial.{IsByte}
use dockyards_flux.Controllers.Workload.Panics.{
  IsUnsettable, reconcile_workload_template-ne-reconciled,
}
use dockyards_flux.Controllers.Workload.Returns.{reconcile_workload-IsUnsettable}
use dockyards_flux.Controllers.Workload.Reaching.{IsReached}
use dockyards_flux.Controllers.Workload.Reconciling.{
  reconcile_workload, reconcile_steps, finish_workload, reconcile_progress,
}
use dockyards_flux.Examples.Setting.{
  api_errors, api_errors-IsLawfulErrors, group_versions, cue, prod, with_input, Template,
}
use dockyards_flux.Examples.Store.{create_or_patch, stored, create_or_patch-IsLawful}
use dockyards_flux.Examples.Rendering.{
  rendering, conditions, workload_world, no_resources, template_loads,
}
use dockyards_flux.Examples.Objects.{workload_key, template_found, template_type}
use dockyards_flux.Examples.Webhook.{good, reference}
use dockyards_flux.Webhooks.Workload.Validate.{load_template}
use mathlib.Core.List.{Memᴰ}

abbrev listed : Entries
listed =
    entry "keys" (array (value (object (entry "key" (bytes (1 ∷ [])) no_entries)) no_values))
      no_entries

listed_run : is_settable listed ≡ false
unfolding is_settable value_is_settable list_is_json value_is_json is_json
listed_run = refl

-- A spec with a byte slice that is not below a list.
abbrev secret : Entries
secret = entry "tls" (object (entry "key" (bytes (1 ∷ [])) no_entries)) listed

secret_run : at ("tls" ∷ "key" ∷ []) (object secret) ≡ some (bytes (1 ∷ []))
unfolding at find string_dec
secret_run = refl

bytes-injective : (t t' : Bytes) → some (bytes t) ≡ some (bytes t') → t ≡ t'
bytes-injective t t' e = cc e

secret-AreBytes : AreBytes ("tls" ∷ "key" ∷ []) (object secret)
unfolding at find string_dec
secret-AreBytes t e = subst (λ x. All IsByte x) (bytes-injective (1 ∷ []) t e) (omega arith, tt)

at-ensure_valid_json_example :
    IsKept
      (at ("tls" ∷ "key" ∷ []) (object secret))
      (at ("tls" ∷ "key" ∷ []) (object (ensure_valid_json secret)))
at-ensure_valid_json_example = at-ensure_valid_json ("tls" ∷ "key" ∷ []) secret secret-AreBytes

-- As the one of the other examples, but with a spec that has such a list, and a SetNestedMap that
-- panics at all but the values of JSON.
abbrev strict : Rendering cue
strict = record rendering {
  decode_map = λ v. ok listed;
  set_nested_spec =
      λ entries u. if is_json entries then done (record u { spec = some entries }) else panicked;
}

strict-PanicsOffJson : PanicsOffJson strict
strict-PanicsOffJson nested u = ((λ e. ground (arith, e)), λ e. ground (arith, e))

good-IsReached :
    IsReached api_errors group_versions conditions cue strict workload_world good no_resources
      (prod "prod")
      (with_input ∷ [])
good-IsReached = record {
  live = refl;
  owned = refl;
  ref = reference "input";
  referenced = refl;
  found = ap (λ x. x.1) (template_found no_resources);
  listed = record {
    of_type = ap (λ x. x.0.type) (template_found no_resources) ∙ template_type;
    ready = inr refl;
    wd = "/srv/app";
    directory = refl;
    instance = 1 ∷ [];
    loads =
        ap (λ x. load_template cue "/srv/app" x.0) (template_found no_resources) ∙ template_loads;
    filled = with_input;
    fills = record {
      builds = refl;
      has_workload = refl;
      has_cluster = refl;
      with_cluster = with_input;
      cluster_filled = refl;
      cluster_fits = refl;
      workload_filled = refl;
      workload_fits = refl;
      is_valid = refl;
    };
    listed = refl;
  };
}

reconcile_workload_template-ne-reconciled_example :
    reconcile_workload_template api_errors group_versions conditions cue strict workload_world good
      no_resources
    ≢ (no_resources, done reconciled)
reconcile_workload_template-ne-reconciled_example =
    reconcile_workload_template-ne-reconciled api_errors group_versions conditions cue strict
      workload_world (stored same_resource resource_key)
      (create_or_patch-IsLawful same_resource resource_key same_resource-IsKeyTest)
      strict-PanicsOffJson api_errors-IsLawfulErrors good no_resources no_resources (prod "prod")
      (with_input ∷ []) with_input good-IsReached (Memᴰ.head refl) (listed, refl, refl, listed_run)

panicked_run :
    (reconcile_workload api_errors group_versions conditions cue strict workload_world workload_key
      no_resources).1
    ≡ panicked
unfolding reconcile_workload reconcile_steps finish_workload reconcile_progress
    reconcile_workload_template render_reference render apply_template apply_fields build_template
    fill_template fill_object create_or_patch string_dec is_json ensure_valid_json
panicked_run = refl

reconcile_workload-IsUnsettable_example :
    (cluster : Cluster) × (values : List Template) × (v : Template) × IsReached api_errors
      group_versions conditions cue strict workload_world good no_resources cluster values
    × Memᴰ v values
    × IsUnsettable group_versions cue strict good cluster strict-PanicsOffJson v
reconcile_workload-IsUnsettable_example =
    reconcile_workload-IsUnsettable api_errors group_versions conditions cue strict workload_world
      (stored same_resource resource_key)
      (create_or_patch-IsLawful same_resource resource_key same_resource-IsKeyTest)
      strict-PanicsOffJson api_errors-IsLawfulErrors workload_key no_resources panicked_run
