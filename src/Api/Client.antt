-- ===== src/Api/Client.antt =====
-- The part of controller-runtime's client that the webhooks use, and group versions.
use dockyards_flux.Base.{String, Option, none, some, ◌≡◌}
use dockyards_flux.Api.Objects.{ObjectKey, Cluster, WorkloadTemplate}

-- `client.Reader`: Get fills an object and returns an error, nil if it was found.
pub record Reader (E : Type 0) : Type 0 where
  pub get_cluster : ObjectKey → Cluster × Option E
  pub get_workload_template : ObjectKey → WorkloadTemplate × Option E

-- What Get documents: the object that it fills is the one with the given key.
pub record IsLawfulReader {E : Type 0} (reader : Reader E) : Type 0 where
  pub get_cluster-name :
      (key : ObjectKey)
      → (reader.get_cluster key).1 ≡ none
      → (reader.get_cluster key).0.name ≡ key.name
  pub get_cluster-namespace :
      (key : ObjectKey)
      → (reader.get_cluster key).1 ≡ none
      → (reader.get_cluster key).0.namespace ≡ key.namespace

-- dockyardsv1.GroupVersion, and schema.ParseGroupVersion, which gives the group or, on an error,
-- `none`.
pub record GroupVersions : Type 0 where
  pub dockyards_group : String
  pub dockyards_group_version : String
  pub parse_group_version : String → Option String

-- A group version that `String()` printed is parsed back.
abbrev pub ParsesDockyards : GroupVersions → Type 0
ParsesDockyards gv = gv.parse_group_version gv.dockyards_group_version ≡ some gv.dockyards_group
