-- ===== src/Examples/Dispatch.antt =====
-- The requests of the manager for a builder that requests more than it must: the object itself, all its
-- owners, and what all functions answer.
use mathlib.Core.List.{Memᴰ}
use dockyards_flux.Base.{
  List, [], ◌∷◌, ◌++◌, refl, inl, map, Mem-map, Mem-append_left, Mem-append_right, subst, ap,
}
use dockyards_flux.Api.Constants.{workload_kind}
use dockyards_flux.Api.Objects.{ObjectKey, ObjectMeta, OwnerReference}
use dockyards_flux.Api.World.{object_key}
use dockyards_flux.Controllers.SourceRepository.{object_to_request}
use dockyards_flux.Controllers.Workload.{set_metadata}
use dockyards_flux.Manager.Setup.{Kind, kustomization, Handler, workload_registration}
use dockyards_flux.Manager.Events.{Builder, IsLawfulBuilder, requests-set_metadata}
use dockyards_flux.Examples.Setting.{group_versions, prod}
use dockyards_flux.Examples.Rendering.{rendered_object}
use dockyards_flux.Examples.Webhook.{good}

abbrev owner_key : ObjectMeta → OwnerReference → ObjectKey
owner_key meta owner = record { namespace = meta.namespace; name = owner.name }

abbrev watched :
    (Handler → ObjectMeta → List ObjectKey) → List (Kind × Handler) → ObjectMeta → List ObjectKey
watched handle [] meta = []
watched handle ((kind, handler) ∷ rest) meta = handle handler meta ++ watched handle rest meta

watched-Mem :
    (handle : Handler → ObjectMeta → List ObjectKey) (watches : List (Kind × Handler)) (kind : Kind)
    (handler : Handler) (meta : ObjectMeta) (key : ObjectKey)
    → Memᴰ (kind, handler) watches
    → Memᴰ key (handle handler meta)
    → Memᴰ key (watched handle watches meta)
watched-Mem handle [] kind handler meta key there m = elim there [ ]
watched-Mem handle ((k, h) ∷ rest) kind handler meta key (Memᴰ.head e) m =
    Mem-append_left key (handle h meta) (watched handle rest meta)
      (subst (λ (h : Handler). Memᴰ key (handle h meta)) (ap (λ x. x.1) e) m)
watched-Mem handle ((k, h) ∷ rest) kind handler meta key (Memᴰ.tail there) m =
    Mem-append_right key (handle h meta) (watched handle rest meta)
      (watched-Mem handle rest kind handler meta key there m)

abbrev builder : Builder
builder = record {
  requests = λ registration handle kind meta.
      object_key meta ∷ map (owner_key meta) meta.owner_references
      ++ watched handle registration.watches meta;
  api_version = λ kind. "dockyards.io/v1alpha3";
  kind_name = λ kind. workload_kind;
}

builder-IsLawfulBuilder : IsLawfulBuilder builder
builder-IsLawfulBuilder = record {
  requests_for = λ registration handle meta. Memᴰ.head refl;
  requests_owner = λ registration handle kind meta owner owned there controller version kind_fits.
      Memᴰ.tail (
        Mem-append_left (owner_key meta owner) (map (owner_key meta) meta.owner_references)
          (watched handle registration.watches meta)
          (Mem-map (owner_key meta) owner meta.owner_references there));
  requests_watched = λ registration handle kind handler meta key there answered. Memᴰ.tail (
      Mem-append_right key (map (owner_key meta) meta.owner_references)
        (watched handle registration.watches meta)
        (watched-Mem handle registration.watches kind handler meta key there answered));
}

abbrev handle : Handler → ObjectMeta → List ObjectKey
handle handler meta = object_to_request meta

requests-set_metadata_example : Memᴰ (object_key good.meta) (
    builder.requests workload_registration handle kustomization
      (set_metadata group_versions good (prod "prod") rendered_object).meta)
requests-set_metadata_example =
    requests-set_metadata builder builder-IsLawfulBuilder handle group_versions good (prod "prod")
      rendered_object kustomization (refl, refl) (inl refl) refl
