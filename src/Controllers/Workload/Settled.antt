-- ===== src/Controllers/Workload/Settled.antt =====
-- The reconciling condition of controllers/dockyardsworkload_controller.go.
use dockyards_flux.Base.{
  true, ap, false, none, List, [], ◌∷◌, ◌≡◌, ◌↔◌, inl, inr, refl, arith, Option-cases, Bool-cases,
  All,
}
use dockyards_flux.Base.Outcome.{ok}
use dockyards_flux.Api.Objects.{Workload}
use dockyards_flux.Api.Errors.{ApiErrors}
use dockyards_flux.Api.Client.{GroupVersions}
use dockyards_flux.Api.Cue.{Cue}
use dockyards_flux.Api.Conditions.{Conditions}
use dockyards_flux.Api.Flux.{Kustomization, HelmRelease}
use dockyards_flux.Api.Rendering.{Rendering, WorkloadWorld}
use mathlib.Core.List.{Memᴰ}
use dockyards_flux.Controllers.Workload.Reconciling.{
  Progress, kustomization_reconciling, helm_release_reconciling, settled, any_kustomization,
  any_helm_release, reconcile_progress,
}

any_kustomization_iff :
    {E : Type 0} (conditions : Conditions E) (ks : List Kustomization)
    → (any_kustomization conditions ks ≡ false)
      ↔ All (λ k. conditions.is_reconciling k.conditions ≡ false) ks
any_kustomization_iff conditions [] = ((λ h. tt), λ h. refl)
any_kustomization_iff conditions (k ∷ ks) =
    let (to, from) = any_kustomization_iff conditions ks in
    ((λ h. (ground arith, to (ground arith))), λ (quiet, rest). ground (arith, quiet, from rest))

any_helm_release_iff :
    {E : Type 0} (conditions : Conditions E) (rs : List HelmRelease)
    → (any_helm_release conditions rs ≡ false)
      ↔ All (λ r. conditions.is_reconciling r.conditions ≡ false) rs
any_helm_release_iff conditions [] = ((λ h. tt), λ h. refl)
any_helm_release_iff conditions (r ∷ rs) =
    let (to, from) = any_helm_release_iff conditions rs in
    ((λ h. (ground arith, to (ground arith))), λ (quiet, rest). ground (arith, quiet, from rest))

any_kustomization-Mem :
    {E : Type 0} (conditions : Conditions E) (xs : List Kustomization)
    → any_kustomization conditions xs ≡ true
    → (x : Kustomization) × Memᴰ x xs × (conditions.is_reconciling x.conditions ≡ true)
any_kustomization-Mem conditions [] h = ground arith
any_kustomization-Mem conditions (x ∷ xs) h =
    elim (Bool-cases (conditions.is_reconciling x.conditions)) [
      | inl busy ↦ (x, Memᴰ.head refl, busy)
      | inr calm ↦
          let (y, there, busy) = any_kustomization-Mem conditions xs (ground (arith, calm)) in
          (y, Memᴰ.tail there, busy)
    ]

Mem-any_kustomization :
    {E : Type 0} (conditions : Conditions E) (x : Kustomization) (xs : List Kustomization)
    → Memᴰ x xs
    → conditions.is_reconciling x.conditions ≡ true
    → any_kustomization conditions xs ≡ true
Mem-any_kustomization conditions x [] there busy = elim there [ ]
Mem-any_kustomization conditions x (y ∷ ys) (Memᴰ.head e) busy =
    ground (arith, ap (λ (z : Kustomization). conditions.is_reconciling z.conditions) e, busy)
Mem-any_kustomization conditions x (y ∷ ys) (Memᴰ.tail there) busy =
    ground (arith, Mem-any_kustomization conditions x ys there busy)

any_helm_release-Mem :
    {E : Type 0} (conditions : Conditions E) (xs : List HelmRelease)
    → any_helm_release conditions xs ≡ true
    → (x : HelmRelease) × Memᴰ x xs × (conditions.is_reconciling x.conditions ≡ true)
any_helm_release-Mem conditions [] h = ground arith
any_helm_release-Mem conditions (x ∷ xs) h =
    elim (Bool-cases (conditions.is_reconciling x.conditions)) [
      | inl busy ↦ (x, Memᴰ.head refl, busy)
      | inr calm ↦
          let (y, there, busy) = any_helm_release-Mem conditions xs (ground (arith, calm)) in
          (y, Memᴰ.tail there, busy)
    ]

Mem-any_helm_release :
    {E : Type 0} (conditions : Conditions E) (x : HelmRelease) (xs : List HelmRelease)
    → Memᴰ x xs
    → conditions.is_reconciling x.conditions ≡ true
    → any_helm_release conditions xs ≡ true
Mem-any_helm_release conditions x [] there busy = elim there [ ]
Mem-any_helm_release conditions x (y ∷ ys) (Memᴰ.head e) busy =
    ground (arith, ap (λ (z : HelmRelease). conditions.is_reconciling z.conditions) e, busy)
Mem-any_helm_release conditions x (y ∷ ys) (Memᴰ.tail there) busy =
    ground (arith, Mem-any_helm_release conditions x ys there busy)

module _ {S E : Type 0} (errors : ApiErrors E) (gv : GroupVersions) (conditions : Conditions E)
    (cue : Cue E) (rendering : Rendering cue) (world : WorkloadWorld S E) where
  -- The Flux objects of the workload are listed and none of them is reconciling.
  abbrev pub IsSettled : Workload → S → Type 0
  IsSettled w s =
      let (ks, e) = world.list_kustomizations w.name w.namespace s in
      let (rs, e') = world.list_helm_releases w.name w.namespace s in
      (e ≡ none)
      × All (λ k. conditions.is_reconciling k.conditions ≡ false) ks
      × (e' ≡ none)
      × All (λ r. conditions.is_reconciling r.conditions ≡ false) rs

  -- What the reconciling condition is to tell: some kustomization of the workload is reconciling; none
  -- is, and some Helm release is; or neither.
  abbrev pub IsProgress : Workload → S → Progress → Type 0
  IsProgress w s kustomization_reconciling =
      let (ks, e) = world.list_kustomizations w.name w.namespace s in
      (e ≡ none) × (k : Kustomization) × Memᴰ k ks × (conditions.is_reconciling k.conditions ≡ true)
  IsProgress w s helm_release_reconciling =
      let (ks, e) = world.list_kustomizations w.name w.namespace s in
      let (rs, e') = world.list_helm_releases w.name w.namespace s in
      (e ≡ none)
      × All (λ k. conditions.is_reconciling k.conditions ≡ false) ks
      × (e' ≡ none)
      × (r : HelmRelease) × Memᴰ r rs
      × (conditions.is_reconciling r.conditions ≡ true)
  IsProgress w s settled = IsSettled w s

  reconcile_progress-settled_iff :
      (w : Workload) (s : S)
      → (reconcile_progress errors gv conditions cue rendering world w s ≡ ok settled)
        ↔ IsSettled w s
  unfolding reconcile_progress
  reconcile_progress-settled_iff w s =
      let (ks, e) = world.list_kustomizations w.name w.namespace s in
      let (rs, e') = world.list_helm_releases w.name w.namespace s in
      let quiet = any_kustomization_iff conditions ks in
      let quiet' = any_helm_release_iff conditions rs in
      (
        (λ h. elim (Option-cases e) [
          | inr (problem, wrong) ↦ ground (arith, wrong)
          | inl fine ↦ elim (Bool-cases (any_kustomization conditions ks)) [
            | inl busy ↦ ground (arith, fine, busy)
            | inr calm ↦ elim (Option-cases e') [
              | inr (problem, wrong) ↦ ground (arith, fine, calm, wrong)
              | inl fine' ↦
                  (fine, quiet.0 calm, fine', quiet'.0 (ground (arith, fine, calm, fine')))
            ]
          ]
        ]),
        λ (fine, calm, fine', calm'). ground (arith, fine, quiet.1 calm, fine', quiet'.1 calm'),
      )

  reconcile_progress-kustomization_iff :
      (w : Workload) (s : S)
      → (reconcile_progress errors gv conditions cue rendering world w s
          ≡ ok kustomization_reconciling)
        ↔ IsProgress w s kustomization_reconciling
  unfolding reconcile_progress
  reconcile_progress-kustomization_iff w s =
      let (ks, e) = world.list_kustomizations w.name w.namespace s in
      let (rs, e') = world.list_helm_releases w.name w.namespace s in
      (
        (λ h. elim (Option-cases e) [
          | inr (problem, wrong) ↦ ground (arith, wrong)
          | inl fine ↦ elim (Bool-cases (any_kustomization conditions ks)) [
            | inl busy ↦
                let (k, there, is) = any_kustomization-Mem conditions ks busy in
                (fine, k, there, is)
            | inr calm ↦ elim (Option-cases e') [
              | inr (problem, wrong) ↦ ground (arith, fine, calm, wrong)
              | inl fine' ↦ elim (Bool-cases (any_helm_release conditions rs)) [
                | inl busy ↦ ground (arith, fine, calm, fine', busy)
                | inr calm' ↦ ground (arith, fine, calm, fine', calm')
              ]
            ]
          ]
        ]),
        λ (fine, k, there, is).
            ground (arith, fine, Mem-any_kustomization conditions k ks there is),
      )

  reconcile_progress-helm_release_iff :
      (w : Workload) (s : S)
      → (reconcile_progress errors gv conditions cue rendering world w s
          ≡ ok helm_release_reconciling)
        ↔ IsProgress w s helm_release_reconciling
  unfolding reconcile_progress
  reconcile_progress-helm_release_iff w s =
      let (ks, e) = world.list_kustomizations w.name w.namespace s in
      let (rs, e') = world.list_helm_releases w.name w.namespace s in
      let quiet = any_kustomization_iff conditions ks in
      (
        (λ h. elim (Option-cases e) [
          | inr (problem, wrong) ↦ ground (arith, wrong)
          | inl fine ↦ elim (Bool-cases (any_kustomization conditions ks)) [
            | inl busy ↦ ground (arith, fine, busy)
            | inr calm ↦ elim (Option-cases e') [
              | inr (problem, wrong) ↦ ground (arith, fine, calm, wrong)
              | inl fine' ↦ elim (Bool-cases (any_helm_release conditions rs)) [
                | inr calm' ↦ ground (arith, fine, calm, fine', calm')
                | inl busy ↦
                    let (r, there, is) = any_helm_release-Mem conditions rs busy in
                    (fine, quiet.0 calm, fine', r, there, is)
              ]
            ]
          ]
        ]),
        λ (fine, calm, fine', r, there, is).
            ground
              (arith, fine, quiet.1 calm, fine', Mem-any_helm_release conditions r rs there is),
      )

  pub reconcile_progress-IsProgress_iff :
      (w : Workload) (s : S) (progress : Progress)
      → (reconcile_progress errors gv conditions cue rendering world w s ≡ ok progress)
        ↔ IsProgress w s progress
  reconcile_progress-IsProgress_iff w s kustomization_reconciling =
      reconcile_progress-kustomization_iff w s
  reconcile_progress-IsProgress_iff w s helm_release_reconciling =
      reconcile_progress-helm_release_iff w s
  reconcile_progress-IsProgress_iff w s settled = reconcile_progress-settled_iff w s
