-- ===== src/Command.antt =====
-- cmd/create-workload-template/main.go
pub mod Naming
pub mod Creating
use dockyards_flux.Base.{String, Option, none, some, List, []}
use dockyards_flux.Base.Outcome.{Result, ok, err, Outcome, done, failed}
use dockyards_flux.Base.GoPath
use dockyards_flux.Api.Constants.{workload_template_type_cue}
use dockyards_flux.Api.Objects.{Bytes, WorkloadTemplate}
use dockyards_flux.Api.World.{CreateOrPatch, OperationResult}

-- What the program calls: the configuration and the client, cue/parser and cue/format, and
-- CreateOrPatch.
pub record Tool (S E : Type 0) : Type 1 where
  pub File : Type 0
  pub get_config : Option E
  pub new_client : Option E
  pub parse_file : String → Result E File
  pub format : File → Result E Bytes
  pub create_or_patch : CreateOrPatch S E WorkloadTemplate

-- The values of the two flags.
pub record Flags : Type 0 where
  pub filename : String
  pub namespace : String

-- `strings.TrimSuffix(filepath.Base(filename), ".cue")`
unfoldable pub template_name : String → String
template_name filename = GoPath.trim_suffix ".cue" (GoPath.base filename)

abbrev pub new_template : String → String → WorkloadTemplate
new_template name namespace = record {
  meta = record {
    name = name;
    namespace = namespace;
    uid = "";
    labels = none;
    owner_references = [];
    deletion_timestamp = none;
  };
  type = "";
  source = [];
}

-- the callback of CreateOrPatch
abbrev pub set_source : {E : Type 0} → Bytes → WorkloadTemplate → Outcome E WorkloadTemplate
set_source b template = done (record template { type = workload_template_type_cue; source = b })

module _ {S E : Type 0} (tool : Tool S E) where
  open tool use {File, get_config, new_client, parse_file, format, create_or_patch}

  abbrev pub create_formatted : Flags → Result E Bytes → S → S × Outcome E OperationResult
  create_formatted flags (err e) s = (s, failed e)
  create_formatted flags (ok b) s =
      create_or_patch (new_template (template_name flags.filename) flags.namespace) (set_source b) s

  abbrev pub create_parsed : Flags → Result E File → S → S × Outcome E OperationResult
  create_parsed flags (err e) s = (s, failed e)
  create_parsed flags (ok file) s = create_formatted flags (format file) s

  abbrev pub create_connected : Flags → Option E → S → S × Outcome E OperationResult
  create_connected flags (some e) s = (s, failed e)
  create_connected flags none s = create_parsed flags (parse_file flags.filename) s

  abbrev pub create_configured : Flags → Option E → S → S × Outcome E OperationResult
  create_configured flags (some e) s = (s, failed e)
  create_configured flags none s = create_connected flags new_client s

  -- `failed e` is `fmt.Println(err)` and `os.Exit(1)`.
  unfoldable pub create_workload_template : Flags → S → S × Outcome E OperationResult
  create_workload_template flags s = create_configured flags get_config s
