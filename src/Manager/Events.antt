-- ===== src/Manager/Events.antt =====
-- Which reconciliations an event in the cluster leads to, by the registrations of the controllers in
-- controllers/.
use mathlib.Core.List.{Memᴰ}
use dockyards_flux.Base.{String, true, some, List, ◌≡◌, ◌⊎◌, inl, inr, refl, ap, sym, subst}
use dockyards_flux.Api.Constants.{workload_kind}
use dockyards_flux.Api.Objects.{ObjectKey, ObjectMeta, OwnerReference, Cluster, Workload}
use dockyards_flux.Api.Client.{GroupVersions}
use dockyards_flux.Api.Rendering.{Unstructured}
use dockyards_flux.Api.World.{object_key}
use dockyards_flux.Controllers.SourceRepository.{object_to_request}
use dockyards_flux.Controllers.Workload.{workload_owner, set_metadata}
use dockyards_flux.Manager.Setup.{
  Kind, workload, kustomization, helm_release, helm_repository, oci_repository, Handler,
  object_to_request as by_object, Registration, workload_registration,
  source_repository_registration,
}

-- The builder of controller-runtime: the reconciliations that a controller is asked for when an object
-- of a kind changes, for what its functions answer.
pub record Builder : Type 0 where
  pub requests :
      Registration → (Handler → ObjectMeta → List ObjectKey) → Kind → ObjectMeta → List ObjectKey
  -- the API version and the kind of the objects of a kind
  pub api_version : Kind → String
  pub kind_name : Kind → String

-- What it documents: For requests the object that changed; Owns requests, in the namespace of the
-- object, its owner that is a controller, if that is of the kind that the controller is for; and
-- Watches requests what the function answers.
pub record IsLawfulBuilder (builder : Builder) : Type 0 where
  pub requests_for :
      (registration : Registration) (handle : Handler → ObjectMeta → List ObjectKey)
      (meta : ObjectMeta)
      → Memᴰ (object_key meta) (builder.requests registration handle registration.for_kind meta)
  pub requests_owner :
      (registration : Registration) (handle : Handler → ObjectMeta → List ObjectKey) (kind : Kind)
      (meta : ObjectMeta) (owner : OwnerReference)
      → Memᴰ kind registration.owns
      → Memᴰ owner meta.owner_references
      → owner.controller ≡ some true
      → owner.api_version ≡ builder.api_version registration.for_kind
      → owner.kind ≡ builder.kind_name registration.for_kind
      → Memᴰ
          (record { namespace = meta.namespace; name = owner.name })
          (builder.requests registration handle kind meta)
  pub requests_watched :
      (registration : Registration) (handle : Handler → ObjectMeta → List ObjectKey) (kind : Kind)
      (handler : Handler) (meta : ObjectMeta) (key : ObjectKey)
      → Memᴰ (kind, handler) registration.watches
      → Memᴰ key (handle handler meta)
      → Memᴰ key (builder.requests registration handle kind meta)

-- Workloads have the API version of the dockyards group, and the kind that the constant says.
abbrev pub KnowsWorkloads : GroupVersions → Builder → Type 0
KnowsWorkloads gv builder =
    (builder.api_version workload ≡ gv.dockyards_group_version)
    × (builder.kind_name workload ≡ workload_kind)

module _ (builder : Builder) (lawful : IsLawfulBuilder builder)
    (handle : Handler → ObjectMeta → List ObjectKey) where
  -- A change of a kustomization or a Helm release that was rendered for a workload, in the namespace of
  -- the workload, requests the workload.
  pub requests-set_metadata :
      (gv : GroupVersions) (w : Workload) (c : Cluster) (u : Unstructured) (kind : Kind)
      → KnowsWorkloads gv builder
      → (kind ≡ kustomization) ⊎ (kind ≡ helm_release)
      → u.namespace ≡ w.namespace
      → Memᴰ
          (object_key w.meta)
          (builder.requests workload_registration handle kind (set_metadata gv w c u).meta)
  requests-set_metadata gv w c u kind knows kinds here =
      let meta = (set_metadata gv w c u).meta in
      let owned : Memᴰ kind workload_registration.owns = elim kinds [
        | inl k ↦ Memᴰ.head k
        | inr h ↦ Memᴰ.tail (Memᴰ.head h)
      ] in
      subst
        (λ (namespace : String).
          Memᴰ (record { namespace = namespace; name = w.name })
            (builder.requests workload_registration handle kind meta))
        here
        (lawful.requests_owner workload_registration handle kind meta (workload_owner gv w) owned
          (Memᴰ.head refl) refl (sym knows.0) (sym knows.1))

  -- Where the function of the source repository controller answers as the code does, a change of a Helm
  -- repository or of an OCI repository requests the object of its key.
  pub requests-source :
      (kind : Kind) (meta : ObjectMeta)
      → handle by_object meta ≡ object_to_request meta
      → (kind ≡ helm_repository) ⊎ (kind ≡ oci_repository)
      → Memᴰ (object_key meta) (builder.requests source_repository_registration handle kind meta)
  requests-source kind meta answers (inl h) =
      subst
        (λ (k : Kind).
          Memᴰ (object_key meta) (builder.requests source_repository_registration handle k meta))
        (sym h) (lawful.requests_for source_repository_registration handle meta)
  requests-source kind meta answers (inr o) =
      lawful.requests_watched source_repository_registration handle kind by_object meta
        (object_key meta) (Memᴰ.head (ap (λ (k : Kind). (k, by_object)) o))
        (subst (λ (keys : List ObjectKey). Memᴰ (object_key meta) keys) (sym answers)
          (Memᴰ.head refl))
