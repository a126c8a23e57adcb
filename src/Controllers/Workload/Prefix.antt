-- ===== src/Controllers/Workload/Prefix.antt =====
-- What a reconciliation of controllers/dockyardsworkload_controller.go leaves of its objects on every
-- path, those that return an error or panic included.
use mathlib.Core.Path.{fun_ext}
use dockyards_flux.Base.{
  List, [], ◌∷◌, ◌++◌, ◌≡◌, ◌≢◌, inl, inr, refl, arith, sym, ◌∙◌, ap, Bool-cases, Option-cases,
  subst,
}
use dockyards_flux.Base.Outcome.{ok, Result-cases, Outcome-cases, done}
use dockyards_flux.Base.View.{View}
use dockyards_flux.Api.Objects.{Cluster, Workload}
use dockyards_flux.Api.Errors.{ApiErrors}
use dockyards_flux.Api.Client.{GroupVersions}
use dockyards_flux.Api.Cue.{Cue}
use dockyards_flux.Api.Conditions.{Conditions}
use dockyards_flux.Api.Rendering.{
  Rendering, WorkloadWorld, Unstructured, ResourceKey, resource_key, same_resource,
  same_resource-IsKeyTest, SetsSpec,
}
use dockyards_flux.Api.World.{OperationResult, IsLawfulCreateOrPatch}
use dockyards_flux.Controllers.Workload.{fill_object, apply_fields, after_operation}
use dockyards_flux.Controllers.Workload.Desired.{desired_view, set-desired, step-desired}

module _ {S E : Type 0} (errors : ApiErrors E) (gv : GroupVersions) (conditions : Conditions E)
    (cue : Cue E) (rendering : Rendering cue) (world : WorkloadWorld S E) (w : Workload)
    (cluster : Cluster) (stored : S → View ResourceKey Unstructured)
    (lawful : IsLawfulCreateOrPatch resource_key stored world.create_or_patch)
    (sets : SetsSpec rendering) where
  open cue use {Value}
  open rendering use {validate_concrete, decode_object}

  -- The objects are those that some values at the front ask for, one after the other.
  abbrev pub IsPrefix : List Value → S → S → Type 0
  IsPrefix vs s s' =
      (front : List Value) × (rest : List Value) × (vs ≡ front ++ rest)
      × (stored s' ≡ desired_view gv cue rendering w cluster front (stored s))

  nothing : (vs : List Value) (s : S) → IsPrefix vs s s
  unfolding desired_view
  nothing vs s = ([], vs, refl, refl)

  -- One more value before them.
  one_more :
      (v : Value) (vs : List Value) (u : Unstructured) (op : OperationResult) (s mid s' : S)
      → decode_object v ≡ ok u
      → world.create_or_patch u (fill_object gv cue rendering w cluster v) s ≡ (mid, done op)
      → IsPrefix vs mid s'
      → IsPrefix (v ∷ vs) s s'
  unfolding desired_view
  one_more v vs u op s mid s' decoded result (front, rest, split, same) = (
    v ∷ front,
    rest,
    ap (λ xs. v ∷ xs) split,
    same
        ∙ ap (λ view. desired_view gv cue rendering w cluster front view)
            (step-desired errors gv conditions cue rendering world w cluster stored lawful sets v u
                op s mid result
              ∙ ground (arith, decoded)),
  )

  -- A CreateOrPatch with whatever result.
  touched :
      (v : Value) (vs : List Value) (u : Unstructured) (s : S)
      → decode_object v ≡ ok u
      → IsPrefix (v ∷ vs) s (world.create_or_patch u (fill_object gv cue rendering w cluster v) s).0
  unfolding desired_view
  touched v vs u s decoded =
      let key = resource_key u in
      let f = fill_object gv cue rendering w cluster v in
      let mid = (world.create_or_patch u f s).0 in
      let others = λ (k : ResourceKey) (ne : k ≢ key). lawful.others_kept u f s k ne in
      elim (lawful.kept_or_set u f s) [
        | inr (after, filled, is_stored) ↦ (
          v ∷ [],
          vs,
          refl,
          set-desired errors gv conditions cue rendering world w cluster stored lawful sets v u
                after s mid filled is_stored others
              ∙ ground (arith, decoded),
        )
        | inl kept ↦ (
          [],
          v ∷ vs,
          refl,
          fun_ext λ k. elim (Bool-cases (same_resource k key)) [
            | inl same ↦
                subst (λ j. stored mid j ≡ stored s j)
                  (sym ((same_resource-IsKeyTest k key).0 same)) kept
            | inr differs ↦ others k (λ e. cc ((same_resource-IsKeyTest k key).1 e, differs))
          ],
        )
      ]

  after_touched :
      (v : Value) (vs : List Value) (u : Unstructured) (s : S)
      → decode_object v ≡ ok u
      → ((mid : S)
          → IsPrefix vs mid
              (apply_fields errors gv conditions cue rendering world w cluster vs mid).0)
      → IsPrefix
          (v ∷ vs)
          s
          (after_operation
            (λ s'. apply_fields errors gv conditions cue rendering world w cluster vs s')
            (world.create_or_patch u (fill_object gv cue rendering w cluster v) s)).0
  after_touched v vs u s decoded later =
      let (mid, outcome) = world.create_or_patch u (fill_object gv cue rendering w cluster v) s in
      elim (Outcome-cases outcome) [
        | inl (op, fine) ↦
            rw fine (one_more v vs u op s mid _ decoded (ground (arith, fine)) (later mid))
        | inr (inl (e, wrong)) ↦ rw wrong (touched v vs u s decoded)
        | inr (inr wrong) ↦ rw wrong (touched v vs u s decoded)
      ]

  -- Whatever comes of the loop over the fields, an error or a panic included, the objects are exactly
  -- those that the specification gives for some of the values, from the first one on without a gap.
  pub apply_fields-IsPrefix :
      (vs : List Value) (s : S)
      → IsPrefix vs s (apply_fields errors gv conditions cue rendering world w cluster vs s).0
  unfolding apply_fields
  apply_fields-IsPrefix [] s = nothing [] s
  apply_fields-IsPrefix (v ∷ vs) s = elim (Option-cases (validate_concrete v)) [
    | inr (e, vague) ↦
        subst (λ t. IsPrefix (v ∷ vs) s t) (ground (arith, vague)) (nothing (v ∷ vs) s)
    | inl concrete ↦ elim (Result-cases (decode_object v)) [
      | inr (e, shapeless) ↦
          subst (λ t. IsPrefix (v ∷ vs) s t) (ground (arith, concrete, shapeless))
            (nothing (v ∷ vs) s)
      | inl (u, decoded) ↦
          subst (λ t. IsPrefix (v ∷ vs) s t) (ground (arith, concrete, decoded))
            (after_touched v vs u s decoded (λ mid. apply_fields-IsPrefix vs mid))
    ]
  ]
