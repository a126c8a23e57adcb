-- ===== src/Api/Flux.antt =====
-- The objects of Flux and the inventories, with the fields that the controllers read or write.
use dockyards_flux.Base.{ℕ, String, Bool, Option, List}
use dockyards_flux.Base.StringMap.{Entries}
use dockyards_flux.Api.Objects.{ObjectMeta, Condition}

-- A `time.Duration` in nanoseconds.
abbrev pub Duration : Type 0
Duration = ℕ

abbrev pub minute : Duration
minute = 60000000000

pub record LabelSelector : Type 0 where
  pub match_labels : Entries
  pub match_expressions : List String

pub record WorkloadInventory : Type 0 where
  pub meta : ObjectMeta
  pub open meta use *
  pub selector : LabelSelector
  pub urls : List String

-- `kube_config` is `Spec.KubeConfig`, by the name of its secret.
pub record Kustomization : Type 0 where
  pub meta : ObjectMeta
  pub open meta use *
  pub kube_config : Option String
  pub prune : Bool
  pub interval : Duration
  pub conditions : List Condition

-- HelmChartTemplateSpec
pub record Chart : Type 0 where
  pub chart : String
  pub version : String

-- `chart` is `Spec.Chart`, a pointer that is nil where the release has a chart reference.
pub record HelmRelease : Type 0 where
  pub meta : ObjectMeta
  pub open meta use *
  pub chart : Option Chart
  pub conditions : List Condition

-- A HelmRepository or an OCIRepository.
pub record Repository : Type 0 where
  pub meta : ObjectMeta
  pub open meta use *

pub record Worktree : Type 0 where
  pub meta : ObjectMeta
  pub open meta use *
  pub url : Option String
  pub reference_name : Option String
  pub commit_hash : Option String

pub record GitRepositoryRef : Type 0 where
  pub branch : String
  pub tag : String
  pub sem_ver : String
  pub name : String
  pub commit : String

pub record GitRepository : Type 0 where
  pub meta : ObjectMeta
  pub open meta use *
  pub url : String
  pub interval : Duration
  pub reference : Option GitRepositoryRef

-- The `GroupVersion.String()` of the packages of Flux.
pub record FluxVersions : Type 0 where
  pub helm_group_version : String
  pub kustomize_group_version : String
  pub source_group_version : String
