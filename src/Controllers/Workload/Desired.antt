-- ===== src/Controllers/Workload/Desired.antt =====
-- The objects that rendering a workload asks for, as a specification of the loop over the fields in
-- controllers/dockyardsworkload_controller.go.
use mathlib.Core.Path.{fun_ext}
use dockyards_flux.Base.{
  true, Option, none, some, List, [], ◌∷◌, ◌≡◌, ◌≢◌, inl, inr, refl, arith, sym, ◌∙◌, ap,
  Bool-cases, if◌then◌else◌, not,
}
use dockyards_flux.Base.Outcome.{Result, ok, err, Result-cases, done}
use dockyards_flux.Base.View.{View, put}
use dockyards_flux.Api.Constants.{label_workload_name, label_cluster_name, workload_kind}
use dockyards_flux.Api.Objects.{Cluster, Workload}
use dockyards_flux.Api.Errors.{ApiErrors}
use dockyards_flux.Api.Client.{GroupVersions}
use dockyards_flux.Api.Cue.{Cue}
use dockyards_flux.Api.Conditions.{Conditions}
use dockyards_flux.Api.Rendering.{
  Rendering, WorkloadWorld, Unstructured, Entries, ResourceKey, resource_key, same_resource,
  same_resource-IsKeyTest, SetsSpec,
}
use dockyards_flux.Api.World.{OperationResult, stored_or, IsLawfulCreateOrPatch}
use dockyards_flux.Controllers.Workload.{set_metadata, fill_object, apply_fields, reconciled}
use dockyards_flux.Controllers.Workload.Json.{ensure_valid_json}
use dockyards_flux.Controllers.Workload.Rendered.{Applied, finished, applied, apply_fields_sound}

abbrev pub replace_spec : Option Entries → Option Entries → Option Entries
replace_spec none old = old
replace_spec (some entries) old = some entries

module _ {E : Type 0} (gv : GroupVersions) (cue : Cue E) (rendering : Rendering cue) (w : Workload)
    (cluster : Cluster) where
  open cue use {Value, exists}
  open rendering use {decode_object, decode_map, lookup_spec}

  -- The spec that a value asks for, if it has one.
  abbrev pub asked_spec : Value → Option Entries
  asked_spec v = if not (exists (lookup_spec v)) then none else elim (decode_map (lookup_spec v)) [
    | err e ↦ none
    | ok entries ↦ some (ensure_valid_json entries)
  ]

  -- An object as a value asks for it: owned by the workload, labelled, and with the value's spec.
  abbrev pub desired : Value → Unstructured → Unstructured
  desired v u = record {
    api_version = u.api_version;
    kind = u.kind;
    meta = record {
      name = u.name;
      namespace = u.namespace;
      uid = u.uid;
      labels = some ((label_workload_name, w.name) ∷ (label_cluster_name, cluster.name) ∷ []);
      owner_references =
          record {
            api_version = gv.dockyards_group_version;
            kind = workload_kind;
            name = w.name;
            uid = w.uid;
            block_owner_deletion = some true;
            controller = some true;
          }
          ∷ [];
      deletion_timestamp = u.deletion_timestamp;
    };
    spec = replace_spec (asked_spec v) u.spec;
  }

  -- what one value does
  abbrev pub update :
      Value → Result E Unstructured → View ResourceKey Unstructured → View ResourceKey Unstructured
  update v (err e) view = view
  update v (ok u) view =
      put same_resource (resource_key u) (desired v (stored_or u (view (resource_key u)))) view

  -- The objects after all values, in order.
  unfoldable pub desired_view :
      List Value → View ResourceKey Unstructured → View ResourceKey Unstructured
  desired_view [] view = view
  desired_view (v ∷ vs) view = desired_view vs (update v (decode_object v) view)

  fill_object-desired :
      SetsSpec rendering
      → (v : Value) (u after : Unstructured)
      → fill_object gv cue rendering w cluster v u ≡ done after
      → after ≡ desired v u
  unfolding fill_object
  fill_object-desired sets v u after h = elim (Bool-cases (exists (lookup_spec v))) [
    | inr bare ↦ ground (arith, bare)
    | inl specified ↦ elim (Result-cases (decode_map (lookup_spec v))) [
      | inr (e, wrong) ↦ ground (arith, specified, wrong)
      | inl (entries, decoded) ↦
          let filled =
            sets (ensure_valid_json entries) (set_metadata gv w cluster u) after
              (ground (arith, specified, decoded)) in
          ground (arith, specified, decoded, filled)
    ]
  ]

module _ {S E : Type 0} (errors : ApiErrors E) (gv : GroupVersions) (conditions : Conditions E)
    (cue : Cue E) (rendering : Rendering cue) (world : WorkloadWorld S E) (w : Workload)
    (cluster : Cluster) (stored : S → View ResourceKey Unstructured)
    (lawful : IsLawfulCreateOrPatch resource_key stored world.create_or_patch)
    (sets : SetsSpec rendering) where
  open cue use {Value}

  -- A value's object that was set to the result of the callback, where all others were left alone.
  pub set-desired :
      (v : Value) (u after : Unstructured) (s mid : S)
      → fill_object gv cue rendering w cluster v (stored_or u (stored s (resource_key u)))
        ≡ done after
      → stored mid (resource_key u) ≡ some after
      → ((k : ResourceKey) → k ≢ resource_key u → stored mid k ≡ stored s k)
      → stored mid
        ≡ put same_resource
            (resource_key u)
            (desired gv cue rendering w cluster v (stored_or u (stored s (resource_key u))))
            (stored s)
  set-desired v u after s mid filled is_stored others =
      let key = resource_key u in
      let before = stored_or u (stored s key) in
      let is_new = fill_object-desired gv cue rendering w cluster sets v before after filled in
      fun_ext λ k. elim (Bool-cases (same_resource k key)) [
        | inl same ↦
            let here : k ≡ key = (same_resource-IsKeyTest k key).0 same in
            ap (λ j. stored mid j) here ∙ is_stored ∙ ap some is_new ∙ ground (arith, same)
        | inr differs ↦
            let ne : k ≢ key = λ e. cc ((same_resource-IsKeyTest k key).1 e, differs) in
            others k ne ∙ ground (arith, differs)
      ]

  pub step-desired :
      (v : Value) (u : Unstructured) (op : OperationResult) (s mid : S)
      → world.create_or_patch u (fill_object gv cue rendering w cluster v) s ≡ (mid, done op)
      → stored mid
        ≡ put same_resource
            (resource_key u)
            (desired gv cue rendering w cluster v (stored_or u (stored s (resource_key u))))
            (stored s)
  step-desired v u op s mid result =
      let (after, filled, is_stored) = lawful.result_stored u _ s mid op result in
      set-desired v u after s mid filled is_stored
        (λ k ne. sym (ap (λ x. stored x.0 k) result) ∙ lawful.others_kept u _ s k ne)

  Applied-desired_view :
      (vs : List Value) (s s' : S)
      → Applied errors gv conditions cue rendering world w cluster vs s s'
      → stored s' ≡ desired_view gv cue rendering w cluster vs (stored s)
  unfolding desired_view
  Applied-desired_view _ _ _ (finished s) = refl
  Applied-desired_view _ _ _ (applied v vs u op s mid s' concrete decoded result rest) =
      Applied-desired_view vs mid s' rest
      ∙ ap (λ view. desired_view gv cue rendering w cluster vs view)
          (step-desired v u op s mid result ∙ ground (arith, decoded))

  -- Where all fields of a template are applied, the cluster holds exactly the objects that the
  -- specification gives from those that were there: each decoded object, taken in order, is created if
  -- it was not there, has the workload as its only owner, the two labels, and the value's spec if it
  -- has one, and keeps all else; every other object is as before.
  pub apply_fields-desired_view :
      (vs : List Value) (s s' : S)
      → apply_fields errors gv conditions cue rendering world w cluster vs s ≡ (s', done reconciled)
      → stored s' ≡ desired_view gv cue rendering w cluster vs (stored s)
  apply_fields-desired_view vs s s' h =
      Applied-desired_view vs s s'
        (apply_fields_sound errors gv conditions cue rendering world w cluster vs s s' h)
