-- ===== src/Manager/Setup.antt =====
-- The `SetupWithManager` of the controllers in controllers/ and of the webhooks in webhooks/.
use dockyards_flux.Base.{String, Bool, true, false, Option, List, [], ◌∷◌, ◌++◌}

pub data Kind : Type 0 where
  workload workload_template cluster worktree : Kind
  kustomization helm_release helm_repository oci_repository : Kind

-- The API groups, each with its AddToScheme.
pub data Group : Type 0 where
  dockyards helm kustomize source core : Group

-- The functions that are given to handler.EnqueueRequestsFromMapFunc.
pub data Handler : Type 0 where
  workload_template_to_workloads cluster_to_workloads object_to_request : Handler

-- ctrl.NewControllerManagedBy(mgr) with its For, Owns and Watches.
pub record Registration : Type 0 where
  pub for_kind : Kind
  pub owns : List Kind
  pub watches : List (Kind × Handler)

-- ctrl.NewWebhookManagedBy(mgr) with its For, WithDefaulter and WithValidator.
pub record WebhookRegistration : Type 0 where
  pub for_kind : Kind
  pub with_defaulter : Bool
  pub with_validator : Bool

-- The calls of libraries in `main` and below it that change what runs or that may fail.
pub data Call : Type 0 where
  get_config : Call
  add_to_scheme : Group → Call
  new_manager : String → Call
  -- GetFieldIndexer().IndexField for the template references of workloads
  add_index : Call
  complete : Registration → Call
  complete_webhook : WebhookRegistration → Call
  start : Call

-- The calls made so far, the first one first.
abbrev pub Trace : Type 0
Trace = List Call

-- What a call answers after the earlier ones: nil or an error.
abbrev pub Answers : Type 0 → Type 0
Answers E = Trace → Call → Option E

abbrev pub workload_registration : Registration
workload_registration = record {
  for_kind = workload;
  owns = kustomization ∷ helm_release ∷ [];
  watches =
      (workload_template, workload_template_to_workloads) ∷ (cluster, cluster_to_workloads) ∷ [];
}

abbrev pub registration_for : Kind → Registration
registration_for kind = record { for_kind = kind; owns = []; watches = [] }

abbrev pub source_repository_registration : Registration
source_repository_registration = record {
  for_kind = helm_repository;
  owns = [];
  watches = (oci_repository, object_to_request) ∷ [];
}

abbrev pub workload_template_webhook_registration : WebhookRegistration
workload_template_webhook_registration = record {
  for_kind = workload_template;
  with_defaulter = false;
  with_validator = true;
}

abbrev pub workload_webhook_registration : WebhookRegistration
workload_webhook_registration = record {
  for_kind = workload;
  with_defaulter = true;
  with_validator = true;
}

module _ {E : Type 0} (answers : Answers E) where
  abbrev pub attempt : Call → Trace → Trace × Option E
  attempt call trace = (trace ++ call ∷ [], answers trace call)

  -- `_ = g.AddToScheme(scheme)`, before the rest
  abbrev pub with_scheme : Group → (Trace → Trace × Option E) → Trace → Trace × Option E
  with_scheme group rest trace = rest (attempt (add_to_scheme group) trace).0

  abbrev pub setup_workload_reconciler : Trace → Trace × Option E
  setup_workload_reconciler =
      with_scheme dockyards
        (with_scheme helm (with_scheme kustomize (attempt (complete workload_registration))))

  abbrev pub setup_worktree_reconciler : Trace → Trace × Option E
  setup_worktree_reconciler =
      with_scheme dockyards (with_scheme source (attempt (complete (registration_for worktree))))

  abbrev pub setup_kustomization_reconciler : Trace → Trace × Option E
  setup_kustomization_reconciler =
      with_scheme core (with_scheme kustomize (attempt (complete (registration_for kustomization))))

  abbrev pub setup_helm_release_reconciler : Trace → Trace × Option E
  setup_helm_release_reconciler =
      with_scheme dockyards (with_scheme helm (attempt (complete (registration_for helm_release))))

  abbrev pub setup_source_repository_reconciler : Trace → Trace × Option E
  setup_source_repository_reconciler =
      with_scheme dockyards (with_scheme source (attempt (complete source_repository_registration)))

  abbrev pub setup_workload_template_webhook : Trace → Trace × Option E
  setup_workload_template_webhook =
      with_scheme dockyards (attempt (complete_webhook workload_template_webhook_registration))

  abbrev pub setup_workload_webhook : Trace → Trace × Option E
  setup_workload_webhook = attempt (complete_webhook workload_webhook_registration)
