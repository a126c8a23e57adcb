-- ===== src/Webhooks/Workload/Defaulting.antt =====
-- What the defaulting webhook of webhooks/workload_webhook.go does to a workload.
use dockyards_flux.Base.{
  true, false, Option, none, some, List, [], ◌∷◌, ◌++◌, ◌≡◌, ◌≢◌, ◌⊎◌, inl, inr, refl, arith, ap,
  sym, ◌∙◌, Bool-cases, subst, string_dec, if◌then◌else◌,
}
use dockyards_flux.Base.Outcome.{Result, ok, err, Result-cases}
use dockyards_flux.Api.Objects.{OwnerReference, TypedObjectReference, Cluster, Workload}
use dockyards_flux.Api.Errors.{ApiErrors, IsLawfulErrors, passed_on}
use dockyards_flux.Api.Client.{Reader, GroupVersions, ParsesDockyards}
use dockyards_flux.Webhooks.Workload.{
  find_cluster_owner_reference, has_cluster_owner_reference, default_api_group,
  cluster_owner_reference, cluster_label, get_cluster, default_workload,
}
use dockyards_flux.Webhooks.Workload.Ownership.{find-append_new}

module _ {E : Type 0} (errors : ApiErrors E) (gv : GroupVersions) (reader : Reader E) where
  -- The changes that defaulting makes: the API group of the reference, and owner references added at
  -- the end.
  abbrev pub with_defaults : Workload → List OwnerReference → Workload
  with_defaults w added = record w {
    workload_template_ref = default_api_group gv w.workload_template_ref;
    meta = record w.meta { owner_references = w.owner_references ++ added };
  }

  -- The answer of the API server for the cluster of the label.
  abbrev pub asked : Workload → Result E Cluster
  asked w = get_cluster reader w.namespace (cluster_label w)

  pub default_skips :
      (w : Workload)
      → has_cluster_owner_reference gv w ≡ true
      → default_workload errors gv reader w
        ≡ (record w { workload_template_ref = default_api_group gv w.workload_template_ref }, none)
  unfolding default_workload has_cluster_owner_reference
  default_skips w owned = ground arith

  default_idem :
      (ref : Option TypedObjectReference)
      → default_api_group gv (default_api_group gv ref) ≡ default_api_group gv ref
  default_idem none = refl
  default_idem (some ref) = ground arith

  -- What happens to a workload without a cluster owner reference but with the label.
  pub default_owns :
      IsLawfulErrors errors
      → (w : Workload) (cluster : Cluster) → has_cluster_owner_reference gv w ≡ false
      → cluster_label w ≢ ""
      → asked w ≡ ok cluster
      → default_workload errors gv reader w
        ≡ (with_defaults w (cluster_owner_reference gv cluster ∷ []), none)
  unfolding default_workload has_cluster_owner_reference
  default_owns lawful w cluster unowned label found = ground arith

  abbrev pub with_api_group : Workload → Workload
  with_api_group w = record w {
    workload_template_ref = default_api_group gv w.workload_template_ref;
  }

  default_unlabelled :
      (w : Workload)
      → has_cluster_owner_reference gv w ≡ false
      → cluster_label w ≡ ""
      → default_workload errors gv reader w ≡ (with_api_group w, none)
  unfolding default_workload has_cluster_owner_reference
  default_unlabelled w unowned empty = ground arith

  default_fails :
      (w : Workload) (e : E)
      → has_cluster_owner_reference gv w ≡ false
      → cluster_label w ≢ ""
      → asked w ≡ err e
      → default_workload errors gv reader w
        ≡ (with_api_group w, if errors.is_not_found (some e) then none else some (passed_on e))
  unfolding default_workload has_cluster_owner_reference
  default_fails w e unowned label failed = ground arith

  -- The three ways in which defaulting leaves the owner references alone, and the one in which it
  -- does not.
  default_cases :
      IsLawfulErrors errors
      → (w : Workload)
      → ((has_cluster_owner_reference gv w ≡ true)
          × (default_workload errors gv reader w ≡ (with_api_group w, none)))
        ⊎ ((has_cluster_owner_reference gv w ≡ false)
            × (cluster_label w ≡ "")
            × (default_workload errors gv reader w ≡ (with_api_group w, none)))
        ⊎ ((e : E) × (has_cluster_owner_reference gv w ≡ false)
            × (cluster_label w ≢ "")
            × (asked w ≡ err e)
            × (default_workload errors gv reader w ≡ (
              with_api_group w,
              if errors.is_not_found (some e) then none else some (passed_on e),
            )))
        ⊎ ((cluster : Cluster) × (has_cluster_owner_reference gv w ≡ false)
            × (cluster_label w ≢ "")
            × (asked w ≡ ok cluster)
            × (default_workload errors gv reader w
                ≡ (with_defaults w (cluster_owner_reference gv cluster ∷ []), none)))
  unfolding default_workload
  default_cases lawful w = elim (Bool-cases (has_cluster_owner_reference gv w)) [
    | inl owned ↦ inl (owned, default_skips w owned)
    | inr unowned ↦ elim (string_dec (cluster_label w) "") [
      | yes empty ↦ inr (inl (unowned, empty, default_unlabelled w unowned empty))
      | no label ↦ elim (Result-cases (asked w)) [
        | inl (cluster, found) ↦ inr (
            inr (
              inr (
                cluster,
                unowned,
                label,
                found,
                default_owns lawful w cluster unowned label found,
              )))
        | inr (e, failed) ↦
            inr (inr (inl (e, unowned, label, failed, default_fails w e unowned label failed)))
      ]
    ]
  ]

  with_api_group_idem : (w : Workload) → with_api_group (with_api_group w) ≡ with_api_group w
  with_api_group_idem w = rw (default_idem w.workload_template_ref)

  pub owns-with_defaults :
      ParsesDockyards gv
      → (w : Workload) (cluster : Cluster) → has_cluster_owner_reference gv w ≡ false
      → has_cluster_owner_reference gv (with_defaults w (cluster_owner_reference gv cluster ∷ []))
        ≡ true
  unfolding has_cluster_owner_reference
  owns-with_defaults parses w cluster unowned =
      let r = cluster_owner_reference gv cluster in
      let nothing : find_cluster_owner_reference gv w.owner_references ≡ none = ground arith in
      rw (find-append_new gv w.owner_references r nothing (refl, parses))

  -- A result that defaulting would give again.
  abbrev IsFixed : Workload → Type 0
  IsFixed w = default_workload errors gv reader w ≡ (w, none)

  with_api_group-IsFixed :
      (w : Workload)
      → default_workload errors gv reader (with_api_group w)
        ≡ (with_api_group (with_api_group w), none)
      → IsFixed (with_api_group w)
  with_api_group-IsFixed w e = e ∙ ap (λ v. (v, none)) (with_api_group_idem w)

  with_defaults-IsFixed :
      ParsesDockyards gv
      → (w : Workload) (cluster : Cluster) → has_cluster_owner_reference gv w ≡ false
      → IsFixed (with_defaults w (cluster_owner_reference gv cluster ∷ []))
  with_defaults-IsFixed parses w cluster unowned =
      let w' = with_defaults w (cluster_owner_reference gv cluster ∷ []) in
      default_skips w' (owns-with_defaults parses w cluster unowned)
      ∙ rw (default_idem w.workload_template_ref)

  -- Where defaulting reported no error, a second pass over its result changes nothing.
  pub default_workload_idempotent :
      IsLawfulErrors errors
      → ParsesDockyards gv
      → (w w' : Workload) → default_workload errors gv reader w ≡ (w', none)
      → default_workload errors gv reader w' ≡ (w', none)
  unfolding has_cluster_owner_reference
  default_workload_idempotent lawful parses w w' h = elim (default_cases lawful w) [
    | inl (owned, e) ↦
        subst IsFixed (ap (λ r. r.0) (sym e ∙ h))
          (with_api_group-IsFixed w (default_skips (with_api_group w) owned))
    | inr (inl (unowned, empty, e)) ↦
        subst IsFixed (ap (λ r. r.0) (sym e ∙ h))
          (with_api_group-IsFixed w (default_unlabelled (with_api_group w) unowned empty))
    | inr (inr (inl (cause, unowned, label, failed, e))) ↦
        subst IsFixed (ap (λ r. r.0) (sym e ∙ h)) (
          with_api_group-IsFixed w (
            default_fails (with_api_group w) cause unowned label failed
            ∙ ap (λ r. (with_api_group (with_api_group w), r.1)) (sym e ∙ h)))
    | inr (inr (inr (cluster, unowned, label, found, e))) ↦
        subst IsFixed (ap (λ r. r.0) (sym e ∙ h)) (with_defaults-IsFixed parses w cluster unowned)
  ]
