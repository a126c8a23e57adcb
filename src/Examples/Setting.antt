-- ===== src/Examples/Setting.antt =====
-- A small world for the examples: two errors, one cluster, three templates, and a CUE loader that
-- reads the first byte of a source: none fails to build, 0 has no `#Input`, and any other has one,
-- which accepts the inputs of at least two bytes.
use dockyards_flux.Base.{
  String, Bool, true, false, Option, none, some, [], ◌∷◌, refl, ◌==◌, if◌then◌else◌, string_dec, ℕ,
  zero, suc,
}
use dockyards_flux.Base.Outcome.{ok}
use dockyards_flux.Api.Constants.{label_organization_name, workload_template_type_cue}
use dockyards_flux.Api.Objects.{Bytes, ObjectMeta, Cluster, WorkloadTemplate}
use dockyards_flux.Api.Errors.{ApiErrors, IsLawfulErrors}
use dockyards_flux.Api.Client.{Reader, IsLawfulReader, GroupVersions, ParsesDockyards}
use dockyards_flux.Api.Cue.{Cue, pos}

pub data Error : Type 0 where
  missing timeout broken : Error

abbrev is_missing : Option Error → Bool
is_missing none = false
is_missing (some missing) = true
is_missing (some timeout) = false
is_missing (some broken) = false

abbrev pub api_errors : ApiErrors Error
api_errors = record {
  is_not_found = is_missing;
  ignore_not_found = λ e. if is_missing e then none else e;
}

pub api_errors-IsLawfulErrors : IsLawfulErrors api_errors
api_errors-IsLawfulErrors = record { is_not_found-nil = refl; ignore_not_found_lem = λ e. refl }

abbrev pub group_versions : GroupVersions
group_versions = record {
  dockyards_group = "dockyards.io";
  dockyards_group_version = "dockyards.io/v1alpha3";
  parse_group_version = λ s.
      if s == "dockyards.io/v1alpha3"
      then some "dockyards.io"
      else if s == "v1"
      then some ""
      else none;
}

pub group_versions-ParsesDockyards : ParsesDockyards group_versions
unfolding string_dec
group_versions-ParsesDockyards = refl

abbrev pub object : String → String → ObjectMeta
object namespace name = record {
  name = name;
  namespace = namespace;
  uid = "uid";
  labels = some ((label_organization_name, "org") ∷ []);
  owner_references = [];
  deletion_timestamp = none;
}

abbrev pub prod : String → Cluster
prod name = record { meta = object "team" name; conditions = [] }

abbrev pub template : String → Bytes → WorkloadTemplate
template name source = record {
  meta = object "public" name;
  type = workload_template_type_cue;
  source = source;
}

abbrev pub found_template : String → WorkloadTemplate × Option Error
found_template name =
    if name == "plain"
    then (template name (0 ∷ []), none)
    else if name == "input"
    then (template name (1 ∷ []), none)
    else if name == "broken"
    then (template name [], none)
    else (template "" [], some missing)

abbrev pub reader : Reader Error
reader = record {
  get_cluster = λ key. (
    record { meta = object key.namespace key.name; conditions = [] },
    if key.name == "prod" then none else if key.name == "slow" then some timeout else some missing,
  );
  get_workload_template = λ key. found_template key.name;
}

pub reader-IsLawfulReader : IsLawfulReader reader
reader-IsLawfulReader = record {
  get_cluster-name = λ key e. refl;
  get_cluster-namespace = λ key e. refl;
}

pub data Template : Type 0 where
  unbuilt plain with_input : Template

abbrev build_first : ℕ → Template
build_first zero = plain
build_first (suc n) = with_input

abbrev build : Bytes → Template
build [] = unbuilt
build (byte ∷ rest) = build_first byte

abbrev build_error : Template → Option Error
build_error unbuilt = some broken
build_error plain = none
build_error with_input = none

abbrev has_input : Template → Bool
has_input with_input = true
has_input _ = false

abbrev input_error : Bytes → Option Error
input_error (a ∷ b ∷ rest) = none
input_error _ = some broken

abbrev pub cue : Cue Error
cue = record {
  Instance = Bytes;
  Value = Template;
  CueError = String;
  getwd = ok "/srv/app";
  instances = λ name overlay. elim overlay [ [] ↦ [] | f ∷ fs ↦ f.1 ∷ [] ];
  instance_err = λ i. none;
  build_instance = build;
  err = build_error;
  lookup_def = λ v name. v;
  exists = has_input;
  errors = λ e. "field not allowed" ∷ [];
  error = λ e. e;
  offset = λ e. pos 0;
  json_validate = λ raw v. input_error raw;
}
