-- ===== src/Webhooks/Workload/Reference/Metadata.antt =====
-- When the labels and the owner reference of a workload pass `validate` of
-- webhooks/workload_webhook.go.
use dockyards_flux.Base.{String, Option, none, some, [], ◌≡◌, ◌≢◌, ◌↔◌, ◌⊎◌, refl, arith, ◌∙◌}
use dockyards_flux.Base.Outcome.{Result, ok, err}
use dockyards_flux.Base.StringMap
use dockyards_flux.Api.Constants.{label_organization_name}
use dockyards_flux.Api.Objects.{ObjectKey, OwnerReference, Cluster, Workload}
use dockyards_flux.Api.Errors.{ApiErrors, IsLawfulErrors}
use dockyards_flux.Api.Client.{Reader, GroupVersions}
use dockyards_flux.Webhooks.Workload.{
  find_cluster_owner_reference, cluster_label, organization_label, get_cluster,
}
use dockyards_flux.Webhooks.Workload.Ownership.{
  IsFirst, find_cluster_owner_reference_sound, find_cluster_owner_reference_complete,
}
use dockyards_flux.Webhooks.Workload.Reference.{
  found_cluster_errors, cluster_errors, reference_errors, validate_cluster_reference,
  metadata_errors,
}

abbrev pub cluster_organization : Cluster → String
cluster_organization cluster = StringMap.get label_organization_name cluster.labels

abbrev pub cluster_key : Workload → ObjectKey
cluster_key w = record { namespace = w.namespace; name = cluster_label w }

module _ {E : Type 0} (errors : ApiErrors E) (gv : GroupVersions) (reader : Reader E) where
  -- The mandatory labels are set; the cluster of the label exists in the workload's namespace; the
  -- first cluster owner reference, if there is one, names that very cluster; and the organization
  -- label agrees with the cluster's, if the cluster has one.
  pub record IsValidMetadata (w : Workload) : Type 0 where
    pub organization_set : organization_label w ≢ ""
    pub cluster_set : cluster_label w ≢ ""
    pub cluster : Cluster
    pub found : reader.get_cluster (cluster_key w) ≡ (cluster, none)
    pub owned :
        (r : OwnerReference)
        → IsFirst gv r w.owner_references
        → (r.name ≡ cluster_label w) × (r.uid ≡ cluster.uid)
    pub organization :
        (cluster_organization cluster ≡ "") ⊎ (organization_label w ≡ cluster_organization cluster)

  abbrev SameOrganization : Workload → Cluster → Type 0
  SameOrganization w cluster =
      (cluster_organization cluster ≡ "") ⊎ (organization_label w ≡ cluster_organization cluster)

  found_cluster_errors_sound :
      (w : Workload) (owner : Option OwnerReference) (cluster : Cluster)
      → found_cluster_errors errors gv reader w owner cluster ≡ []
      → ((r : OwnerReference) → owner ≡ some r → r.uid ≡ cluster.uid) × SameOrganization w cluster
  unfolding found_cluster_errors
  found_cluster_errors_sound w none cluster e = ((λ r h. cc), ground arith)
  found_cluster_errors_sound w (some q) cluster e = ((λ r h. ground arith), ground arith)

  get_cluster-ok :
      (w : Workload) (cluster : Cluster)
      → get_cluster reader w.namespace (cluster_label w) ≡ ok cluster
      → reader.get_cluster (cluster_key w) ≡ (cluster, none)
  unfolding get_cluster
  get_cluster-ok w cluster e = ground arith

  pub get_cluster-found :
      (w : Workload) (cluster : Cluster)
      → reader.get_cluster (cluster_key w) ≡ (cluster, none)
      → get_cluster reader w.namespace (cluster_label w) ≡ ok cluster
  unfolding get_cluster
  get_cluster-found w cluster e = ground arith

  cluster_errors_sound :
      (w : Workload) (owner : Option OwnerReference) (result : Result E Cluster)
      → cluster_errors errors gv reader w owner result ≡ []
      → (cluster : Cluster) × (result ≡ ok cluster)
        × (found_cluster_errors errors gv reader w owner cluster ≡ [])
  unfolding cluster_errors
  cluster_errors_sound w owner (ok cluster) e = (cluster, refl, ground arith)
  cluster_errors_sound w owner (err cause) e = ground arith

  reference_errors_sound :
      (w : Workload) (owner : Option OwnerReference)
      → reference_errors errors gv reader w owner ≡ []
      → ((r : OwnerReference) → owner ≡ some r → r.name ≡ cluster_label w)
        × (cluster_errors errors gv reader w owner
              (get_cluster reader w.namespace (cluster_label w))
            ≡ [])
  unfolding reference_errors
  reference_errors_sound w none e = ((λ r h. cc), e)
  reference_errors_sound w (some q) e = ((λ r h. ground arith), ground arith)

  metadata_errors_sound :
      (w : Workload)
      → metadata_errors errors gv reader w ≡ []
      → (organization_label w ≢ "")
        × (cluster_label w ≢ "")
        × (validate_cluster_reference errors gv reader w ≡ [])
  unfolding metadata_errors
  metadata_errors_sound w e = (ground arith, ground arith, ground arith)

  pub IsValidMetadata-sound :
      (w : Workload) → metadata_errors errors gv reader w ≡ [] → IsValidMetadata w
  unfolding validate_cluster_reference
  IsValidMetadata-sound w e =
      let (org, label, none_found) = metadata_errors_sound w e in
      let owner = find_cluster_owner_reference gv w.owner_references in
      let (named, asked) = reference_errors_sound w owner none_found in
      let (cluster, result, passed) =
        cluster_errors_sound w owner (get_cluster reader w.namespace (cluster_label w)) asked in
      let (uid, organization) = found_cluster_errors_sound w owner cluster passed in
      record {
        organization_set = org;
        cluster_set = label;
        cluster = cluster;
        found = get_cluster-ok w cluster result;
        owned = λ r first.
            let e = find_cluster_owner_reference_complete gv w.owner_references r first in
            (named r e, uid r e);
        organization = organization;
      }

  found_cluster_errors_complete :
      (w : Workload) (owner : Option OwnerReference) (cluster : Cluster)
      → ((r : OwnerReference) → owner ≡ some r → r.uid ≡ cluster.uid)
      → SameOrganization w cluster
      → found_cluster_errors errors gv reader w owner cluster ≡ []
  unfolding found_cluster_errors
  found_cluster_errors_complete w none cluster u s = ground arith
  found_cluster_errors_complete w (some q) cluster u s = ground (arith, u q refl)

  reference_errors_complete :
      (w : Workload) (owner : Option OwnerReference)
      → ((r : OwnerReference) → owner ≡ some r → r.name ≡ cluster_label w)
      → reference_errors errors gv reader w owner
        ≡ cluster_errors errors gv reader w owner (get_cluster reader w.namespace (cluster_label w))
  unfolding reference_errors
  reference_errors_complete w none h = refl
  reference_errors_complete w (some q) h = ground (arith, h q refl)

  metadata_errors_complete :
      (w : Workload)
      → organization_label w ≢ ""
      → cluster_label w ≢ ""
      → metadata_errors errors gv reader w ≡ validate_cluster_reference errors gv reader w
  unfolding metadata_errors
  metadata_errors_complete w org label = ground arith

  pub IsValidMetadata-complete :
      IsLawfulErrors errors
      → (w : Workload) → IsValidMetadata w
      → metadata_errors errors gv reader w ≡ []
  unfolding validate_cluster_reference cluster_errors
  IsValidMetadata-complete lawful w v =
      let owner = find_cluster_owner_reference gv w.owner_references in
      let owned = λ (r : OwnerReference) (e : owner ≡ some r).
        v.owned r (find_cluster_owner_reference_sound gv w.owner_references r e) in
      metadata_errors_complete w v.organization_set v.cluster_set
      ∙ reference_errors_complete w owner (λ r e. (owned r e).0)
      ∙ rw (get_cluster-found w v.cluster v.found, cluster_errors, lawful.is_not_found-nil)
          (found_cluster_errors_complete w owner v.cluster (λ r e. (owned r e).1) v.organization)

  -- No error is found exactly when the labels and the owner reference are valid.
  pub metadata_errors-eq-nil_iff :
      IsLawfulErrors errors
      → (w : Workload) → (metadata_errors errors gv reader w ≡ []) ↔ IsValidMetadata w
  metadata_errors-eq-nil_iff lawful w = (IsValidMetadata-sound w, IsValidMetadata-complete lawful w)
