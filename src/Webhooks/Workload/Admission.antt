-- ===== src/Webhooks/Workload/Admission.antt =====
-- The defaulting webhook followed by the validating webhook of webhooks/workload_webhook.go.
use dockyards_flux.Base.{
  true, false, Option, none, [], ◌∷◌, ◌++◌, ◌≡◌, inl, inr, refl, arith, ap, ◌∙◌, Option-cases,
  Bool-cases, subst,
}
use dockyards_flux.Api.Objects.{OwnerReference, Cluster, Workload}
use dockyards_flux.Api.Errors.{ApiErrors, IsLawfulErrors}
use dockyards_flux.Api.Client.{Reader, IsLawfulReader, GroupVersions, ParsesDockyards}
use dockyards_flux.Webhooks.Workload.{
  find_cluster_owner_reference, has_cluster_owner_reference, cluster_owner_reference, cluster_label,
  default_workload,
}
use dockyards_flux.Webhooks.Workload.Ownership.{
  IsFirst, find-append_new, find_cluster_owner_reference_sound,
  find_cluster_owner_reference_complete,
}
use dockyards_flux.Webhooks.Workload.Defaulting.{
  with_api_group, with_defaults, default_skips, default_owns,
}
use dockyards_flux.Webhooks.Workload.Reference.Metadata.{
  IsValidMetadata, cluster_key, get_cluster-found,
}

module _ {E : Type 0} (errors : ApiErrors E) (gv : GroupVersions) (reader : Reader E) where
  abbrev Valid : Workload → Type 0
  Valid = IsValidMetadata errors gv reader

  -- The workload has a reference to its cluster: the first cluster owner reference has this UID.
  abbrev pub IsOwnedBy : Cluster → Workload → Type 0
  IsOwnedBy cluster w =
      (r : OwnerReference) × IsFirst gv r w.owner_references × (r.uid ≡ cluster.uid)

  with_api_group-Valid : (w : Workload) → Valid w → Valid (with_api_group errors gv reader w)
  with_api_group-Valid w v = record {
    organization_set = v.organization_set;
    cluster_set = v.cluster_set;
    cluster = v.cluster;
    found = v.found;
    owned = v.owned;
    organization = v.organization;
  }

  first_with_defaults :
      ParsesDockyards gv
      → (w : Workload) (cluster : Cluster) (r : OwnerReference)
      → has_cluster_owner_reference gv w ≡ false
      → IsFirst gv r (w.owner_references ++ cluster_owner_reference gv cluster ∷ [])
      → r ≡ cluster_owner_reference gv cluster
  unfolding has_cluster_owner_reference
  first_with_defaults parses w cluster r unowned first =
      let nothing : find_cluster_owner_reference gv w.owner_references ≡ none = ground arith in
      cc (
        find-append_new gv w.owner_references (cluster_owner_reference gv cluster) nothing
            (refl, parses),
        find_cluster_owner_reference_complete gv _ r first,
      )

  found_name :
      IsLawfulReader reader → (w : Workload) (v : Valid w) → v.cluster.name ≡ cluster_label w
  found_name names w v =
      subst (λ (got : Cluster × Option E). got.1 ≡ none → got.0.name ≡ cluster_label w) v.found
        (names.get_cluster-name (cluster_key w)) refl

  with_defaults-Valid :
      IsLawfulReader reader
      → ParsesDockyards gv
      → (w : Workload) (v : Valid w) → has_cluster_owner_reference gv w ≡ false
      → Valid (with_defaults errors gv reader w (cluster_owner_reference gv v.cluster ∷ []))
  with_defaults-Valid names parses w v unowned = record {
    organization_set = v.organization_set;
    cluster_set = v.cluster_set;
    cluster = v.cluster;
    found = v.found;
    owned = λ r first.
        let same = first_with_defaults parses w v.cluster r unowned first in
        (
          ap (λ (q : OwnerReference). q.name) same ∙ found_name names w v,
          ap (λ (q : OwnerReference). q.uid) same,
        );
    organization = v.organization;
  }

  owned_with_defaults :
      ParsesDockyards gv
      → (w : Workload) (cluster : Cluster) → has_cluster_owner_reference gv w ≡ false
      → IsOwnedBy cluster
          (with_defaults errors gv reader w (cluster_owner_reference gv cluster ∷ []))
  unfolding has_cluster_owner_reference
  owned_with_defaults parses w cluster unowned =
      let nothing : find_cluster_owner_reference gv w.owner_references ≡ none = ground arith in
      let r = cluster_owner_reference gv cluster in
      (
        r,
        find_cluster_owner_reference_sound gv _ r
            (find-append_new gv w.owner_references r nothing (refl, parses)),
        refl,
      )

  owned_before :
      (w : Workload) (v : Valid w) → has_cluster_owner_reference gv w ≡ true → IsOwnedBy v.cluster w
  unfolding has_cluster_owner_reference
  owned_before w v owned =
      elim (Option-cases (find_cluster_owner_reference gv w.owner_references)) [
        | inl nothing ↦ ground (arith, nothing)
        | inr (r, found) ↦
            let first = find_cluster_owner_reference_sound gv w.owner_references r found in
            (r, first, (v.owned r first).1)
      ]

  -- A workload whose metadata is valid is defaulted with no error; its metadata stays valid, and
  -- after that it is owned by its cluster.
  pub default_workload-IsValidMetadata :
      IsLawfulErrors errors
      → IsLawfulReader reader
      → ParsesDockyards gv
      → (w : Workload) (v : IsValidMetadata errors gv reader w)
      → let answer = default_workload errors gv reader w in
        (answer.1 ≡ none) × IsValidMetadata errors gv reader answer.0 × IsOwnedBy v.cluster answer.0
  default_workload-IsValidMetadata lawful names parses w v =
      elim (Bool-cases (has_cluster_owner_reference gv w)) [
        | inl owned ↦
            rw (default_skips errors gv reader w owned)
              (refl, with_api_group-Valid w v, owned_before w v owned)
        | inr unowned ↦
            let asked = get_cluster-found errors gv reader w v.cluster v.found in
            rw (default_owns errors gv reader lawful w v.cluster unowned v.cluster_set asked) (
              refl,
              with_defaults-Valid names parses w v unowned,
              owned_with_defaults parses w v.cluster unowned,
            )
      ]
