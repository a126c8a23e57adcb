-- ===== src/Webhooks/Workload/Ownership.antt =====
-- Which owner reference `findClusterOwnerReference` of webhooks/workload_webhook.go returns.
use dockyards_flux.Base.{
  none, some, List, [], ◌∷◌, ◌++◌, ◌≡◌, ◌↔◌, refl, arith, All, Option-cases, ap, inl, inr, ◌⊎◌,
  string_dec, sym, ◌∙◌,
}
use dockyards_flux.Api.Constants.{cluster_kind}
use dockyards_flux.Api.Objects.{OwnerReference}
use dockyards_flux.Api.Client.{GroupVersions}
use dockyards_flux.Webhooks.Workload.{find_cluster_owner_reference}

module _ (gv : GroupVersions) where
  -- A reference to a cluster, of any version of the group.
  abbrev pub IsClusterReference : OwnerReference → Type 0
  IsClusterReference r =
      (r.kind ≡ cluster_kind) × (gv.parse_group_version r.api_version ≡ some gv.dockyards_group)

  -- The first reference to a cluster.
  abbrev pub IsFirst : OwnerReference → List OwnerReference → Type 0
  IsFirst r rs =
      (before : List OwnerReference) × (after : List OwnerReference) × (rs ≡ before ++ r ∷ after)
      × All (λ q. ¬ IsClusterReference q) before
      × IsClusterReference r

  step_cases :
      (r : OwnerReference) (rs : List OwnerReference)
      → (IsClusterReference r × (find_cluster_owner_reference gv (r ∷ rs) ≡ some r))
        ⊎ ((¬ IsClusterReference r)
            × (find_cluster_owner_reference gv (r ∷ rs) ≡ find_cluster_owner_reference gv rs))
  unfolding find_cluster_owner_reference
  step_cases r rs = elim (string_dec r.kind cluster_kind) [
    | no other ↦ inr ((λ h. other h.0), ground arith)
    | yes same ↦ elim (Option-cases (gv.parse_group_version r.api_version)) [
      | inl bad ↦ inr ((λ h. cc (h.1)), ground arith)
      | inr (group, parsed) ↦ elim (string_dec group gv.dockyards_group) [
        | no other ↦ inr ((λ h. other (ground (arith, h.1))), ground arith)
        | yes ours ↦ inl ((same, ground arith), ground arith)
      ]
    ]
  ]

  -- The first reference to a cluster is what is found, and nothing else.
  pub find_cluster_owner_reference_sound :
      (rs : List OwnerReference) (r : OwnerReference)
      → find_cluster_owner_reference gv rs ≡ some r
      → IsFirst r rs
  unfolding find_cluster_owner_reference
  find_cluster_owner_reference_sound [] r e = cc
  find_cluster_owner_reference_sound (q ∷ rs) r e = elim (step_cases q rs) [
    | inl (is, found) ↦ let same : q ≡ r = cc in ([], rs, rw same refl, tt, rw same at is)
    | inr (other, found) ↦
        let (before, after, split, none_before, is) =
          find_cluster_owner_reference_sound rs r (sym found ∙ e) in
        (q ∷ before, after, ap (◌∷◌ q) split, (other, none_before), is)
  ]

  find-append :
      (before after : List OwnerReference)
      → All (λ q. ¬ IsClusterReference q) before
      → find_cluster_owner_reference gv (before ++ after) ≡ find_cluster_owner_reference gv after
  find-append [] after h = refl
  find-append (q ∷ before) after (other, h) = elim (step_cases q (before ++ after)) [
    | inl (is, found) ↦ absurd (other is)
    | inr (_, found) ↦ found ∙ find-append before after h
  ]

  pub find_cluster_owner_reference_complete :
      (rs : List OwnerReference) (r : OwnerReference)
      → IsFirst r rs
      → find_cluster_owner_reference gv rs ≡ some r
  find_cluster_owner_reference_complete rs r (before, after, split, h, is) =
      rw (split, find-append before (r ∷ after) h)
        (elim (step_cases r after) [ inl (_, found) ↦ found | inr (other, _) ↦ absurd (other is) ])

  -- What is found is the first owner reference of kind Cluster whose API version parses to the group
  -- of dockyards, whatever the version.
  pub find_cluster_owner_reference_iff :
      (rs : List OwnerReference) (r : OwnerReference)
      → (find_cluster_owner_reference gv rs ≡ some r) ↔ IsFirst r rs
  find_cluster_owner_reference_iff rs r =
      (find_cluster_owner_reference_sound rs r, find_cluster_owner_reference_complete rs r)

  -- Nothing is found exactly when no reference is one to a cluster.
  pub find-eq-none_iff :
      (rs : List OwnerReference)
      → (find_cluster_owner_reference gv rs ≡ none) ↔ All (λ q. ¬ IsClusterReference q) rs
  unfolding find_cluster_owner_reference
  find-eq-none_iff [] = (λ _. tt, λ _. refl)
  find-eq-none_iff (q ∷ rs) = elim (step_cases q rs) [
    | inl (is, found) ↦ ((λ e. cc), λ h. absurd (h.0 is))
    | inr (other, found) ↦ (
      (λ e. (other, (find-eq-none_iff rs).0 (sym found ∙ e))),
      λ h. found ∙ (find-eq-none_iff rs).1 h.1,
    )
  ]

  -- An appended reference to a cluster is found where there was none before.
  pub find-append_new :
      (rs : List OwnerReference) (r : OwnerReference)
      → find_cluster_owner_reference gv rs ≡ none
      → IsClusterReference r
      → find_cluster_owner_reference gv (rs ++ r ∷ []) ≡ some r
  find-append_new rs r nothing is =
      find_cluster_owner_reference_complete (rs ++ r ∷ []) r
        (rs, [], refl, (find-eq-none_iff rs).0 nothing, is)
