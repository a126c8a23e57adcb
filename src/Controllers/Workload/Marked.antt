-- ===== src/Controllers/Workload/Marked.antt =====
-- The owner and the labels of what the loop over the fields in
-- controllers/dockyardsworkload_controller.go leaves in the cluster.
use mathlib.Core.List.{Memᴰ}
use dockyards_flux.Base.{
  some, List, [], ◌∷◌, ◌≡◌, inl, inr, refl, arith, sym, ◌∙◌, ap, subst, Bool-cases,
}
use dockyards_flux.Base.Outcome.{Result, ok, err, done}
use dockyards_flux.Base.View.{View, put_self}
use dockyards_flux.Api.Constants.{label_workload_name, label_cluster_name}
use dockyards_flux.Api.Objects.{Cluster, Workload}
use dockyards_flux.Api.Errors.{ApiErrors}
use dockyards_flux.Api.Client.{GroupVersions}
use dockyards_flux.Api.Cue.{Cue}
use dockyards_flux.Api.Conditions.{Conditions}
use dockyards_flux.Api.Rendering.{
  Rendering, WorkloadWorld, Unstructured, ResourceKey, resource_key, same_resource,
  same_resource-IsKeyTest, SetsSpec,
}
use dockyards_flux.Api.World.{stored_or, IsLawfulCreateOrPatch}
use dockyards_flux.Controllers.Workload.{workload_owner, apply_fields, reconciled}
use dockyards_flux.Controllers.Workload.Desired.{
  desired, update, desired_view, apply_fields-desired_view,
}

-- The object has the workload as its only owner, and the labels of the workload and the cluster.
abbrev pub IsMarked : GroupVersions → Workload → Cluster → Unstructured → Type 0
IsMarked gv w cluster u =
    (u.owner_references ≡ workload_owner gv w ∷ [])
    × (u.labels ≡ some ((label_workload_name, w.name) ∷ (label_cluster_name, cluster.name) ∷ []))

module _ {E : Type 0} (gv : GroupVersions) (cue : Cue E) (rendering : Rendering cue) (w : Workload)
    (cluster : Cluster) where
  open cue use {Value}
  open rendering use {decode_object}

  -- The key has such an object.
  abbrev pub HoldsMarked : View ResourceKey Unstructured → ResourceKey → Type 0
  HoldsMarked view k = (x : Unstructured) × (view k ≡ some x) × IsMarked gv w cluster x

  update_marks :
      (v : Value) (u : Unstructured) (view : View ResourceKey Unstructured)
      → HoldsMarked (update gv cue rendering w cluster v (ok u) view) (resource_key u)
  update_marks v u view =
      let x = desired gv cue rendering w cluster v (stored_or u (view (resource_key u))) in
      (x, put_self same_resource same_resource-IsKeyTest (resource_key u) x view, (refl, refl))

  update_keeps :
      (v : Value) (decoded : Result E Unstructured) (view : View ResourceKey Unstructured)
      (k : ResourceKey)
      → HoldsMarked view k
      → HoldsMarked (update gv cue rendering w cluster v decoded view) k
  update_keeps v (err e) view k held = held
  update_keeps v (ok u) view k (x, here, marked) =
      elim (Bool-cases (same_resource k (resource_key u))) [
        | inl same ↦
            subst
              (λ (k : ResourceKey). HoldsMarked (update gv cue rendering w cluster v (ok u) view) k)
              (sym ((same_resource-IsKeyTest k (resource_key u)).0 same)) (update_marks v u view)
        | inr differs ↦ (x, ground (arith, differs, here), marked)
      ]

  desired_view_keeps :
      (vs : List Value) (view : View ResourceKey Unstructured) (k : ResourceKey)
      → HoldsMarked view k
      → HoldsMarked (desired_view gv cue rendering w cluster vs view) k
  unfolding desired_view
  desired_view_keeps [] view k held = held
  desired_view_keeps (v ∷ vs) view k held =
      desired_view_keeps vs (update gv cue rendering w cluster v (decode_object v) view) k
        (update_keeps v (decode_object v) view k held)

  desired_view_marks :
      (vs : List Value) (view : View ResourceKey Unstructured) (v : Value) (u : Unstructured)
      → Memᴰ v vs
      → decode_object v ≡ ok u
      → HoldsMarked (desired_view gv cue rendering w cluster vs view) (resource_key u)
  unfolding desired_view
  desired_view_marks [] view v u there decoded = elim there [ ]
  desired_view_marks (v' ∷ vs) view v u (Memᴰ.head e) decoded =
      desired_view_keeps vs (update gv cue rendering w cluster v' (decode_object v') view)
        (resource_key u)
        (subst
          (λ (d : Result E Unstructured).
            HoldsMarked (update gv cue rendering w cluster v' d view) (resource_key u))
          (sym (ap decode_object (sym e) ∙ decoded)) (update_marks v' u view))
  desired_view_marks (v' ∷ vs) view v u (Memᴰ.tail there) decoded =
      desired_view_marks vs (update gv cue rendering w cluster v' (decode_object v') view) v u there
        decoded

module _ {S E : Type 0} (errors : ApiErrors E) (gv : GroupVersions) (conditions : Conditions E)
    (cue : Cue E) (rendering : Rendering cue) (world : WorkloadWorld S E) (w : Workload)
    (cluster : Cluster) (stored : S → View ResourceKey Unstructured)
    (lawful : IsLawfulCreateOrPatch resource_key stored world.create_or_patch)
    (sets : SetsSpec rendering) where
  open cue use {Value}
  open rendering use {decode_object}

  -- Where all fields of a template are applied, every object that one of them decodes to is in the
  -- cluster, with the workload as its only owner and the labels of the workload and the cluster, also
  -- where later fields are for the same object.
  pub apply_fields-IsMarked :
      (vs : List Value) (v : Value) (u : Unstructured) (s s' : S)
      → apply_fields errors gv conditions cue rendering world w cluster vs s ≡ (s', done reconciled)
      → Memᴰ v vs
      → decode_object v ≡ ok u
      → (x : Unstructured) × (stored s' (resource_key u) ≡ some x) × IsMarked gv w cluster x
  apply_fields-IsMarked vs v u s s' h there decoded =
      let same =
        apply_fields-desired_view errors gv conditions cue rendering world w cluster stored lawful
          sets vs s s' h in
      let (x, here, marked) =
        desired_view_marks gv cue rendering w cluster vs (stored s) v u there decoded in
      (x, ap (λ view. view (resource_key u)) same ∙ here, marked)
