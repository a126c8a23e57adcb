-- ===== src/Api/Objects.antt =====
-- The API objects, with the fields that the code reads or writes. A pointer is an `Option`, nil being
-- `none`; a byte slice is a list of numbers.
use dockyards_flux.Base.{ℕ, String, Bool, Option, none, some, List, ◌==◌, ◌&&◌, arith}
use dockyards_flux.Base.View.{IsKeyTest}
use dockyards_flux.Base.StringMap.{StringMap}

abbrev pub Bytes : Type 0
Bytes = List ℕ

pub record ObjectKey : Type 0 where
  pub namespace : String
  pub name : String

pub record OwnerReference : Type 0 where
  pub api_version : String
  pub kind : String
  pub name : String
  pub uid : String
  pub block_owner_deletion : Option Bool
  pub controller : Option Bool

pub record ObjectMeta : Type 0 where
  pub name : String
  pub namespace : String
  pub uid : String
  pub labels : StringMap
  pub owner_references : List OwnerReference
  pub deletion_timestamp : Option ℕ

-- `DeletionTimestamp.IsZero()`
abbrev pub is_zero : Option ℕ → Bool
is_zero none = Bool.true
is_zero (some time) = Bool.false

pub record Condition : Type 0 where
  pub type : String
  pub status : String
  pub reason : String
  pub message : String

pub record TypedObjectReference : Type 0 where
  pub api_group : Option String
  pub kind : String
  pub name : String
  pub namespace : Option String

pub record Cluster : Type 0 where
  pub meta : ObjectMeta
  pub open meta use *
  pub conditions : List Condition

pub record WorkloadTemplate : Type 0 where
  pub meta : ObjectMeta
  pub open meta use *
  pub type : String
  pub source : Bytes

pub record Workload : Type 0 where
  pub meta : ObjectMeta
  pub open meta use *
  pub cluster_component : Bool
  pub workload_template_input : Option Bytes
  pub input : Option Bytes
  pub workload_template_ref : Option TypedObjectReference
  pub conditions : List Condition

-- `runtime.Object`, by the types that the webhooks assert
pub data RuntimeObject : Type 0 where
  workload : Workload → RuntimeObject
  workload_template : WorkloadTemplate → RuntimeObject
  other : RuntimeObject

-- `==` of keys
abbrev pub same_key : ObjectKey → ObjectKey → Bool
same_key a b = (a.namespace == b.namespace) && (a.name == b.name)

pub same_key-IsKeyTest : IsKeyTest same_key
same_key-IsKeyTest a b = ((λ e. ground arith), λ e. ground arith)
