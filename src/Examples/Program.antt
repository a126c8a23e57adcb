-- ===== src/Examples/Program.antt =====
-- The programs main.go and cmd/create-workload-template/main.go, and the requests for workloads.
use mathlib.Core.List.{Memᴰ}
use dockyards_flux.Base.{String, true, Option, some, none, [], ◌∷◌, ◌≡◌, ◌≢◌, ◌⊎◌, refl}
use dockyards_flux.Base.Outcome.{ok, done}
use dockyards_flux.Api.Constants.{workload_template_type_cue}
use dockyards_flux.Api.Objects.{
  ObjectKey, Bytes, TypedObjectReference, Workload, WorkloadTemplate, same_key, same_key-IsKeyTest,
}
use dockyards_flux.Api.World.{object_key, updated}
use dockyards_flux.Command.{
  Tool, Flags as ToolFlags, create_workload_template, template_name, new_template,
}
use dockyards_flux.Command.Creating.{IsFormatted, template_key, create_workload_template-stored}
use dockyards_flux.Controllers.Workload.Watching.{
  Lister, cluster_to_workloads, workload_template_to_workloads,
}
use dockyards_flux.Controllers.Workload.Requeue.{
  IsLawfulLister, cluster_to_workloads-accepted, workload_template_to_workloads-Mem,
}
use dockyards_flux.Manager.{Flags, start_program}
use dockyards_flux.Manager.Setup.{Call, complete, Answers, worktree}
use dockyards_flux.Manager.Steps.{IsCompleted, IsAborted}
use dockyards_flux.Manager.Startup.{program_steps, start_program_cases}
use dockyards_flux.Examples.Setting.{
  Error, broken, api_errors, group_versions, template, reader, reader-IsLawfulReader,
}
use dockyards_flux.Examples.Store.{Store, create_or_patch, stored, create_or_patch-IsLawful}
use dockyards_flux.Examples.Controllers.{none_stored}
use dockyards_flux.Examples.Webhook.{good, good_metadata}

abbrev fails_at_worktree : Call → Option Error
fails_at_worktree (complete registration) = elim registration.for_kind [
  | worktree ↦ some broken
  | _ ↦ none
]
fails_at_worktree _ = none

abbrev answers : Answers Error
answers trace call = fails_at_worktree call

abbrev flags : Flags
flags = record { metrics_bind_address = ":8080"; enable_webhooks = true }

start_program_cases_example :
    let (trace, result) = start_program answers flags [] in
    IsCompleted answers (program_steps flags) [] trace result
    ⊎ IsAborted answers (program_steps flags) [] trace result
start_program_cases_example = start_program_cases answers flags

abbrev only_good : Lister (Unit {0}) Error
only_good = record {
  list_by_reference = λ ref s. (good ∷ [], none);
  list_by_cluster = λ name namespace s. (good ∷ [], none);
}

-- A workload refers to what its reference is, as it is.
abbrev RefersAsIs : TypedObjectReference → Workload → Type 0
RefersAsIs ref w = w.workload_template_ref ≡ some ref

only_good-IsLawfulLister : IsLawfulLister (λ s. good ∷ []) RefersAsIs only_good
only_good-IsLawfulLister = record {
  by_cluster = λ name namespace s w there labelled here fine. there;
  by_reference = λ ref s w there referring fine. there;
}

cluster_to_workloads-accepted_example : Memᴰ (object_key good.meta) (object_key good.meta ∷ [])
unfolding cluster_to_workloads
cluster_to_workloads-accepted_example =
    cluster_to_workloads-accepted (λ s. good ∷ []) RefersAsIs only_good only_good-IsLawfulLister
      api_errors group_versions reader good tt (object_key good.meta ∷ []) reader-IsLawfulReader
      good_metadata (Memᴰ.head refl) refl

workload_template_to_workloads-Mem_example : Memᴰ (object_key good.meta) (object_key good.meta ∷ [])
unfolding workload_template_to_workloads
workload_template_to_workloads-Mem_example =
    workload_template_to_workloads-Mem (λ s. good ∷ []) RefersAsIs only_good
      only_good-IsLawfulLister (template "input" (1 ∷ [])) tt (object_key good.meta ∷ []) good refl
      (Memᴰ.head refl) refl

abbrev template_key_of : WorkloadTemplate → ObjectKey
template_key_of t = object_key t.meta

abbrev tool : Tool (Store WorkloadTemplate) Error
tool = record {
  File = String;
  get_config = none;
  new_client = none;
  parse_file = λ filename. ok filename;
  format = λ file. ok (1 ∷ 2 ∷ []);
  create_or_patch = create_or_patch same_key template_key_of;
}

abbrev tool_flags : ToolFlags
tool_flags = record { filename = "templates/app.cue"; namespace = "public" }

abbrev after_tool : Store WorkloadTemplate
after_tool = (create_workload_template tool tool_flags none_stored).0

tool_run : create_workload_template tool tool_flags none_stored ≡ (after_tool, done updated)
unfolding create_workload_template create_or_patch
tool_run = refl

create_workload_template-stored_example :
    (b : Bytes) × IsFormatted tool
      (stored same_key template_key_of)
      (create_or_patch-IsLawful same_key template_key_of same_key-IsKeyTest)
      "templates/app.cue"
      b
    × (after_tool (template_key tool_flags)
        ≡ some (record {
          meta = (new_template (template_name "templates/app.cue") "public").meta;
          type = workload_template_type_cue;
          source = b;
        }))
    × ((other : ObjectKey) → other ≢ template_key tool_flags → after_tool other ≡ none)
create_workload_template-stored_example =
    create_workload_template-stored tool (stored same_key template_key_of)
      (create_or_patch-IsLawful same_key template_key_of same_key-IsKeyTest) tool_flags none_stored
      after_tool updated tool_run
