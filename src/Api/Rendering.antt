-- ===== src/Api/Rendering.antt =====
-- What the workload controller uses of CUE beyond the webhooks, and of the cluster.
use dockyards_flux.Base.{ℕ, String, Bool, Option, some, List, ◌==◌, ◌&&◌, ◌≡◌, arith}
use dockyards_flux.Base.View.{IsKeyTest}
use dockyards_flux.Base.Outcome.{Result, Outcome, done}
use dockyards_flux.Api.Objects.{Bytes, ObjectKey, ObjectMeta, Cluster, Workload, WorkloadTemplate}
use dockyards_flux.Api.Flux.{Kustomization, HelmRelease}
use dockyards_flux.Api.Cue.{Cue, ℤ}
use dockyards_flux.Api.World.{CreateOrPatch}

-- A value of type `any`, and the entries of a map from strings to such values. A float64 is given by
-- its 64 bits, and a value of any type that is not among those that are named, such as a *big.Int, by a
-- text.
mutual
  pub data Any : Type 0 where
    object : Entries → Any
    array : Values → Any
    bytes : Bytes → Any
    text : Bytes → Any
    int64 : ℤ → Any
    float64 : ℕ → Any
    json_number : Bytes → Any
    other : String → Any
    flag : Bool → Any
    null : Any

  pub data Entries : Type 0 where
    no_entries : Entries
    entry : String → Any → Entries → Entries

  pub data Values : Type 0 where
    no_values : Values
    value : Any → Values → Values

-- unstructured.Unstructured, with its spec, if it has one.
pub record Unstructured : Type 0 where
  pub api_version : String
  pub kind : String
  pub meta : ObjectMeta
  pub open meta use *
  pub spec : Option Entries

-- The second argument of FillPath.
pub data Filling : Type 0 where
  fill_cluster : Cluster → Filling
  fill_workload : Workload → Filling

-- What tells objects of any type apart.
pub record ResourceKey : Type 0 where
  pub api_version : String
  pub kind : String
  pub namespace : String
  pub name : String

abbrev pub resource_key : Unstructured → ResourceKey
resource_key u = record {
  api_version = u.api_version;
  kind = u.kind;
  namespace = u.namespace;
  name = u.name;
}

abbrev pub same_resource : ResourceKey → ResourceKey → Bool
same_resource a b =
    (a.api_version == b.api_version)
    && (a.kind == b.kind)
    && (a.namespace == b.namespace)
    && (a.name == b.name)

pub same_resource-IsKeyTest : IsKeyTest same_resource
same_resource-IsKeyTest a b = ((λ e. ground arith), λ e. ground arith)

pub record Rendering {E : Type 0} (cue : Cue E) : Type 1 where
  -- FillPath(cue.MakePath(cue.Def(name)), x)
  pub fill_path : cue.Value → String → Filling → cue.Value
  -- Validate(), and Validate(cue.Concrete(true))
  pub validate : cue.Value → Option E
  pub validate_concrete : cue.Value → Option E
  -- Fields(): the values that the iterator gives
  pub fields : cue.Value → Result E (List cue.Value)
  pub decode_object : cue.Value → Result E Unstructured
  pub decode_map : cue.Value → Result E Entries
  -- LookupPath(cue.ParsePath("spec"))
  pub lookup_spec : cue.Value → cue.Value
  -- unstructured.SetNestedMap of an object, for "spec"; it panics on values of types other than those of JSON and int64
  pub set_nested_spec : Entries → Unstructured → Outcome E Unstructured

-- What SetNestedMap documents: the field is set to a copy of the map, and nothing else is changed.
abbrev pub SetsSpec : {E : Type 0} {cue : Cue E} → Rendering cue → Type 0
SetsSpec rendering =
    (entries : Entries) (u u' : Unstructured)
    → rendering.set_nested_spec entries u ≡ done u'
    → u' ≡ record u { spec = some entries }

pub record WorkloadWorld (S E : Type 0) : Type 0 where
  pub get_workload : ObjectKey → S → Workload × Option E
  -- apiutil.GetOwnerCluster of dockyards-backend: nil where there is no owner
  pub get_owner_cluster : Workload → S → Option Cluster × Option E
  pub get_workload_template : ObjectKey → S → WorkloadTemplate × Option E
  -- List of the objects with the given workload label in the given namespace
  pub list_kustomizations : String → String → S → List Kustomization × Option E
  pub list_helm_releases : String → String → S → List HelmRelease × Option E
  pub create_or_patch : CreateOrPatch S E Unstructured
  pub new_workload_helper : Workload → S → Option E
  pub patch_workload : Workload → Workload → S → S × Option E
  pub new_aggregate : List (Option E) → Option E
