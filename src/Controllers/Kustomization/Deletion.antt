-- ===== src/Controllers/Kustomization/Deletion.antt =====
-- When controllers/kustomization_controller.go stops the pruning of a kustomization that is deleted.
use dockyards_flux.Base.{
  String, true, false, Option, none, some, ◌≡◌, ◌⊎◌, inl, inr, arith, Option-cases, Bool-cases,
}
use dockyards_flux.Api.Errors.{ApiErrors, IsLawfulErrors}
use dockyards_flux.Api.Flux.{Kustomization, FluxVersions}
use dockyards_flux.Api.World.{World}
use dockyards_flux.Controllers.Kustomization.{reconcile_delete}

-- The kustomization without pruning, and with an interval of a minute, in nanoseconds.
abbrev pub unpruned : Kustomization → Kustomization
unpruned k = record {
  meta = k.meta;
  kube_config = k.kube_config;
  prune = false;
  interval = 60000000000;
  conditions = k.conditions;
}

module _ {S E : Type 0} (errors : ApiErrors E) (flux : FluxVersions) (world : World S E) where
  abbrev pub secret_error : Kustomization → String → S → Option E
  secret_error k secret s = world.get_secret (record { namespace = k.namespace; name = secret }) s

  -- The kustomization prunes with a kubeconfig whose secret does not exist.
  abbrev pub IsUnreachable : Kustomization → S → Type 0
  IsUnreachable k s =
      (secret : String) × (k.kube_config ≡ some secret)
      × (k.prune ≡ true)
      × (errors.is_not_found (secret_error k secret s) ≡ true)

  abbrev pub delete : Kustomization → S → Kustomization × Option E
  delete = reconcile_delete errors flux world

  stops :
      IsLawfulErrors errors
      → (k : Kustomization) (s : S) → IsUnreachable k s
      → delete k s ≡ (unpruned k, none)
  unfolding reconcile_delete
  stops lawful k s (secret, config, prune, missing) =
      ground (arith, lawful.ignore_not_found_lem (secret_error k secret s))

  -- The secret cannot be read.
  abbrev pub FailsWith : Kustomization → S → E → Type 0
  FailsWith k s e =
      (secret : String) × (k.kube_config ≡ some secret)
      × (k.prune ≡ true)
      × (secret_error k secret s ≡ some e)
      × (errors.is_not_found (some e) ≡ false)

  -- The secret exists, or it is not asked for.
  abbrev pub IsReachable : Kustomization → S → Type 0
  IsReachable k s =
      (k.kube_config ≡ none)
      ⊎ (k.prune ≡ false)
      ⊎ ((secret : String) × (k.kube_config ≡ some secret) × (secret_error k secret s ≡ none))

  asked :
      IsLawfulErrors errors
      → (k : Kustomization) (s : S) (secret : String) → k.kube_config ≡ some secret
      → k.prune ≡ true
      → (IsUnreachable k s × (delete k s ≡ (unpruned k, none)))
        ⊎ ((e : E) × FailsWith k s e × (delete k s ≡ (k, some e)))
        ⊎ (IsReachable k s × (delete k s ≡ (k, none)))
  unfolding reconcile_delete
  asked lawful k s secret config prune =
      let e = secret_error k secret s in
      elim (Bool-cases (errors.is_not_found e)) [
        | inl missing ↦
            let unreachable : IsUnreachable k s = (secret, config, prune, missing) in
            inl (unreachable, stops lawful k s unreachable)
        | inr other ↦ elim (Option-cases e) [
          | inl found ↦ inr (
              inr (
                inr (inr (secret, config, found)),
                ground (arith, lawful.ignore_not_found_lem e, found),
              ))
          | inr (cause, failed) ↦ inr (
              inl (
                cause,
                (secret, config, prune, failed, ground (arith, failed)),
                ground (arith, lawful.ignore_not_found_lem e, failed),
              ))
        ]
      ]

  -- The deletion of a kustomization: pruning is turned off, and the interval set to a minute, where
  -- it prunes with a kubeconfig whose secret does not exist; where that secret cannot be read the
  -- error is returned and nothing is changed; otherwise nothing is changed and there is no error.
  pub reconcile_delete_cases :
      IsLawfulErrors errors
      → (k : Kustomization) (s : S)
      → (IsUnreachable k s × (delete k s ≡ (unpruned k, none)))
        ⊎ ((e : E) × FailsWith k s e × (delete k s ≡ (k, some e)))
        ⊎ (IsReachable k s × (delete k s ≡ (k, none)))
  unfolding reconcile_delete
  reconcile_delete_cases lawful k s = elim (Option-cases k.kube_config) [
    | inl absent ↦ inr (inr (inl absent, ground (arith, absent)))
    | inr (secret, config) ↦ elim (Bool-cases k.prune) [
      | inr kept ↦ inr (inr (inr (inl kept), ground (arith, config, kept)))
      | inl prune ↦ asked lawful k s secret config prune
    ]
  ]
