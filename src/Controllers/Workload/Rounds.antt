-- ===== src/Controllers/Workload/Rounds.antt =====
-- Reconciliations of controllers/dockyardsworkload_controller.go one after the other.
use dockyards_flux.Base.{some, ◌≡◌, ◌≢◌, ap, ◌∙◌, sym}
use dockyards_flux.Base.View.{View}
use dockyards_flux.Api.Objects.{ObjectKey}
use dockyards_flux.Api.Errors.{ApiErrors, IsLawfulErrors}
use dockyards_flux.Api.Client.{GroupVersions}
use dockyards_flux.Api.Cue.{Cue}
use dockyards_flux.Api.Conditions.{Conditions}
use dockyards_flux.Api.Rendering.{
  Rendering, WorkloadWorld, Unstructured, ResourceKey, resource_key, SetsSpec,
}
use dockyards_flux.Api.World.{IsLawfulCreateOrPatch}
use dockyards_flux.Controllers.Workload.Reconciling.{reconcile_workload}
use dockyards_flux.Controllers.Workload.Kept.{workload_resource, PatchesOnly}
use dockyards_flux.Controllers.Workload.Untouched.{
  IsOne, IsOne-trans, IsOne-refl, reconcile_workload-IsOne,
}

module _ {S E : Type 0} (errors : ApiErrors E) (gv : GroupVersions) (conditions : Conditions E)
    (cue : Cue E) (rendering : Rendering cue) (world : WorkloadWorld S E)
    (stored : S → View ResourceKey Unstructured)
    (lawful : IsLawfulCreateOrPatch resource_key stored world.create_or_patch)
    (sets : SetsSpec rendering) (patches : PatchesOnly gv world stored)
    (lawful_errors : IsLawfulErrors errors) where
  -- The object that was there is there.
  abbrev pub IsStill : ResourceKey → Unstructured → S → Type 0
  IsStill k u s = (u' : Unstructured) × (stored s k ≡ some u') × IsOne u u'

  -- Reconciliations of any workloads, other than the object itself, whatever they return, and between
  -- them anything that neither removes nor replaces the object.
  pub data Rounds (k : ResourceKey) : S → S → Type 0 where
    before_all : (s : S) → Rounds k s s
    round :
        (key : ObjectKey) (s mid s' : S)
        → Rounds k s mid
        → k ≢ workload_resource gv (world.get_workload key mid).0
        → (reconcile_workload errors gv conditions cue rendering world key mid).0 ≡ s'
        → Rounds k s s'
    outside :
        (s mid s' : S)
        → Rounds k s mid
        → ((u : Unstructured) → stored mid k ≡ some u → IsStill k u s')
        → Rounds k s s'

  -- However often, for whatever workloads and with whatever results reconciliations are run, they remove
  -- no object, the workloads that they reconcile apart, and replace none by another of its name: what is
  -- no longer rendered stays until something else removes it.
  pub Rounds-IsStill :
      (k : ResourceKey) (u : Unstructured) (s s' : S)
      → Rounds k s s'
      → stored s k ≡ some u
      → IsStill k u s'
  Rounds-IsStill k u _ _ (before_all s) here = (u, here, IsOne-refl u)
  Rounds-IsStill k u _ _ (round key s mid s' rest ne e) here =
      let (v, there, one) = Rounds-IsStill k u s mid rest here in
      let (after, found, one') =
        reconcile_workload-IsOne errors gv conditions cue rendering world stored lawful sets patches
          lawful_errors key mid k v ne there in
      (after, sym (ap (λ t. stored t k) e) ∙ found, IsOne-trans u v after one one')
  Rounds-IsStill k u _ _ (outside s mid s' rest keeps) here =
      let (v, there, one) = Rounds-IsStill k u s mid rest here in
      let (after, found, one') = keeps v there in (after, found, IsOne-trans u v after one one')
