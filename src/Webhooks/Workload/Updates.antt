-- ===== src/Webhooks/Workload/Updates.antt =====
-- What updates of a workload the validating webhook of webhooks/workload_webhook.go lets through.
use dockyards_flux.Base.{
  String, true, Option, none, some, List, ◌≡◌, ◌↔◌, refl, arith, Option-cases, ◌∙◌, inl, inr,
}
use dockyards_flux.Api.Objects.{TypedObjectReference, Workload, workload}
use dockyards_flux.Api.Errors.{ApiErrors, reply}
use dockyards_flux.Api.Client.{Reader, GroupVersions}
use dockyards_flux.Api.Cue.{Cue}
use dockyards_flux.Webhooks.Workload.{cluster_label, organization_label}
use dockyards_flux.Webhooks.Workload.Validate.{
  valid_cluster_reference_update, valid_organization_reference_update,
  valid_template_reference_update, validate_workload_update, validate_create, validate_update,
}

-- A template reference that was set is still set, to a template of the same name.
abbrev pub IsTemplateKept : Workload → Workload → Type 0
IsTemplateKept old new =
    (was : TypedObjectReference)
    → old.workload_template_ref ≡ some was
    → (is : TypedObjectReference) × (new.workload_template_ref ≡ some is) × (is.name ≡ was.name)

abbrev pub IsUnmoved : Workload → Workload → Type 0
IsUnmoved old new =
    IsTemplateKept old new
    × (cluster_label old ≡ cluster_label new)
    × (organization_label old ≡ organization_label new)

template_update_sound :
    (old new : Workload) → valid_template_reference_update old new ≡ true → IsTemplateKept old new
unfolding valid_template_reference_update
template_update_sound old new e was present = elim (Option-cases new.workload_template_ref) [
  | inl absent ↦ ground arith
  | inr (is, present') ↦ (is, present', ground arith)
]

template_update_complete :
    (old new : Workload) → IsTemplateKept old new → valid_template_reference_update old new ≡ true
unfolding valid_template_reference_update
template_update_complete old new kept = elim (Option-cases old.workload_template_ref) [
  | inl absent ↦ ground arith
  | inr (was, present) ↦ let (is, present', same) = kept was present in ground arith
]

IsUnmoved-trans : (a b c : Workload) → IsUnmoved a b → IsUnmoved b c → IsUnmoved a c
IsUnmoved-trans a b c (kept, cluster, organization) (kept', cluster', organization') = (
  (λ was present.
      let (mid, present', same) = kept was present in
      let (is, present'', same') = kept' mid present' in (is, present'', same' ∙ same)),
  cluster ∙ cluster',
  organization ∙ organization',
)

module _ {E : Type 0} (errors : ApiErrors E) (gv : GroupVersions) (cue : Cue E) where
  module _ (reader : Reader E) where
    -- An update is accepted exactly when the labels for the cluster and the organization are
    -- unchanged, a template reference that was set keeps its name, and the new workload passes the
    -- validation that a created workload passes; the warnings are those of that validation.
    pub validate_update_accepts_iff :
        (old new : Workload) (ws : List String)
        → (validate_update errors gv reader cue (workload old) (workload new) ≡ reply ws none) ↔ (
            IsUnmoved old new
            × (validate_create errors gv reader cue (workload new) ≡ reply ws none))
    unfolding validate_update validate_workload_update validate_create
        valid_cluster_reference_update valid_organization_reference_update
    validate_update_accepts_iff old new ws = (
      (λ e. (
        (template_update_sound old new (ground arith), ground arith, ground arith),
        ground arith,
      )),
      λ h. ground (arith, template_update_complete old new h.0.0, h.0.1, h.0.2),
    )

  -- A workload that was created and then updated, each time with an accepting answer; the cluster
  -- may differ from one request to the next.
  pub data History (first : Workload) : Workload → Type 0 where
    created :
        (reader : Reader E) (ws : List String)
        → validate_create errors gv reader cue (workload first) ≡ reply ws none
        → History first first
    updated :
        (reader : Reader E) (ws : List String) {old : Workload} (new : Workload)
        → History first old
        → validate_update errors gv reader cue (workload old) (workload new) ≡ reply ws none
        → History first new

  -- However often a workload has been updated, its cluster and organization labels are those of its
  -- creation, and a template reference that was set at creation is set, to a template of that name.
  pub History-IsUnmoved : {first last : Workload} → History first last → IsUnmoved first last
  History-IsUnmoved (created reader ws e) = ((λ was present. (was, present, refl)), refl, refl)
  History-IsUnmoved {first} (updated reader ws {old = mid} new h e) =
      IsUnmoved-trans first mid new (History-IsUnmoved h)
        ((validate_update_accepts_iff reader mid new ws).0 e).0

  -- An update may move the reference to another namespace: only the name is compared.
  pub validate_update-namespace :
      (reader : Reader E) (old : Workload) (ref : TypedObjectReference) (namespace : Option String)
      → old.workload_template_ref ≡ some ref
      → let new = record old {
        workload_template_ref = some (record ref { namespace = namespace });
      } in
        validate_update errors gv reader cue (workload old) (workload new)
        ≡ validate_create errors gv reader cue (workload new)
  unfolding validate_update validate_workload_update validate_create valid_cluster_reference_update
      valid_organization_reference_update valid_template_reference_update
  validate_update-namespace reader old ref namespace present = ground (arith, present)
