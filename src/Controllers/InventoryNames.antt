-- ===== src/Controllers/InventoryNames.antt =====
-- The names of the inventories that the four controllers of controllers/ write.
use Prim.Native.String.{count}
use text.Mathlib.TextLemmas.{append_inj, length-append}
use dockyards_flux.Base.{
  String, ◌<>◌, ◌≡◌, refl, arith, sym, ◌∙◌, ap, string_dec, ◌==◌, if◌then◌else◌,
}
use dockyards_flux.Controllers.Kustomization.{kustomization_suffix}
use dockyards_flux.Controllers.HelmRelease.{helm_release_suffix}
use dockyards_flux.Controllers.SourceRepository.{helm_repository_suffix, oci_repository_suffix}

-- What an inventory is written for.
pub data InventoryKind : Type 0 where
  kustomization helm_release helm_repository oci_repository : InventoryKind

abbrev pub suffix : InventoryKind → String
suffix kustomization = kustomization_suffix
suffix helm_release = helm_release_suffix
suffix helm_repository = helm_repository_suffix
suffix oci_repository = oci_repository_suffix

count-suffix : (kind : InventoryKind) → count (suffix kind) ≡ 6
count-suffix kustomization = refl
count-suffix helm_release = refl
count-suffix helm_repository = refl
count-suffix oci_repository = refl

-- The kind that a suffix stands for.
kind_of : String → InventoryKind
unfolding string_dec
kind_of s =
    if s == helm_release_suffix
    then helm_release
    else if s == helm_repository_suffix
    then helm_repository
    else if s == oci_repository_suffix
    then oci_repository
    else kustomization

kind_of-suffix : (kind : InventoryKind) → kind_of (suffix kind) ≡ kind
unfolding kind_of
kind_of-suffix kustomization = refl
kind_of-suffix helm_release = refl
kind_of-suffix helm_repository = refl
kind_of-suffix oci_repository = refl

-- Two inventories of the same name are for objects of the same kind and of the same name: no
-- controller writes to an inventory of another, or to that of another object.
pub inventory_name_injective :
    (i j : InventoryKind) (m n : String) → m <> suffix i ≡ n <> suffix j → (i ≡ j) × (m ≡ n)
inventory_name_injective i j m n e =
    let lengths : count m ≡ count n = omega (
      arith,
      ap (λ (s : String). count s) e,
      length-append m (suffix i),
      length-append n (suffix j),
      count-suffix i,
      count-suffix j,
    ) in
    let (same_name, same_suffix) = append_inj e lengths in
    (sym (kind_of-suffix i) ∙ ap kind_of same_suffix ∙ kind_of-suffix j, same_name)
