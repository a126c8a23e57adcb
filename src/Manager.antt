-- ===== src/Manager.antt =====
-- main.go: the calls that start the program, in order. What a call answers is a parameter.
pub mod Setup
pub mod Steps
pub mod Startup
pub mod Events
use dockyards_flux.Base.{String, Bool, Option, none, some, List, [], ◌∷◌, ◌++◌}
use dockyards_flux.Base.Outcome.{Result, ok, err}
use dockyards_flux.Manager.Setup.{
  Call, get_config, add_to_scheme, new_manager, add_index, start, Trace, Answers, attempt,
  dockyards, setup_workload_reconciler, setup_worktree_reconciler, setup_kustomization_reconciler,
  setup_helm_release_reconciler, setup_source_repository_reconciler,
  setup_workload_template_webhook, setup_workload_webhook,
}

-- A step of `main`: the calls so far, and the message and the error where the program has exited.
abbrev pub Main : Type 0 → Type 0
Main E = Trace → Trace × Result (String × E) (Unit {0})

infixl 5 ◌>>◌
abbrev pub ◌>>◌ : {E : Type 0} → Main E → Main E → Main E
◌>>◌ first second trace =
    let (trace', result) = first trace in
    elim result [ ok _ ↦ second trace' | err problem ↦ (trace', err problem) ]

-- `if err != nil { logger.Error(message, "err", err); os.Exit(1) }`
abbrev pub or_exit : {E : Type 0} → String → (Trace → Trace × Option E) → Main E
or_exit message step trace =
    let (trace', e) = step trace in
    elim e [ none ↦ (trace', ok tt) | some problem ↦ (trace', err (message, problem)) ]

-- `_ = …`
abbrev pub ignore : {E : Type 0} → (Trace → Trace × Option E) → Main E
ignore step trace = ((step trace).0, ok tt)

abbrev pub nothing : {E : Type 0} → Main E
nothing trace = (trace, ok tt)

pub record Flags : Type 0 where
  pub metrics_bind_address : String
  pub enable_webhooks : Bool

module _ {E : Type 0} (answers : Answers E) where
  -- `if enableWebhooks { … }`; the second message is that of the source
  unfoldable pub start_webhooks : Bool → Main E
  start_webhooks Bool.false = nothing
  start_webhooks Bool.true =
      or_exit "error creating workload template webhooks" (setup_workload_template_webhook answers)
      >> or_exit "error creating workload template webhooks" (setup_workload_webhook answers)

  unfoldable pub start_program : Flags → Main E
  unfolding start_webhooks
  start_program flags =
      or_exit "error getting config" (attempt answers get_config)
      >> ignore (attempt answers (add_to_scheme dockyards))
      >> or_exit "error creating manager" (attempt answers (new_manager flags.metrics_bind_address))
      >> or_exit "error adding index for workload" (attempt answers add_index)
      >> or_exit "error creating workload reconciler" (setup_workload_reconciler answers)
      >> or_exit "error creating worktree reconciler" (setup_worktree_reconciler answers)
      >> or_exit "error creating kustomization reconciler" (setup_kustomization_reconciler answers)
      >> or_exit "error creating helm release reconciler" (setup_helm_release_reconciler answers)
      >> or_exit "error creating source repository reconciler"
          (setup_source_repository_reconciler answers)
      >> start_webhooks flags.enable_webhooks
      >> or_exit "error starting manager" (attempt answers start)
