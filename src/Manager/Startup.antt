-- ===== src/Manager/Startup.antt =====
-- main.go against the list of the calls that it makes.
use dockyards_flux.Base.{
  String, Bool, true, false, Option, none, some, List, [], ◌∷◌, ◌++◌, ◌≡◌, ◌⊎◌, inl, inr, refl,
  arith, ap, sym, ◌∙◌, Option-cases,
}
use mathlib.Core.Path.{fun_ext}
use dockyards_flux.Manager.{Main, ◌>>◌, or_exit, ignore, Flags, start_webhooks, start_program}
use dockyards_flux.Manager.Setup.{
  Call, get_config, add_to_scheme, new_manager, add_index, complete, complete_webhook, start, Trace,
  Answers, attempt, with_scheme, Group, dockyards, helm, kustomize, source, core,
  workload_registration, registration_for, source_repository_registration, worktree, kustomization,
  helm_release, workload_template_webhook_registration, workload_webhook_registration,
}
use dockyards_flux.Manager.Steps.{Step, run, run_cases, IsCompleted, IsAborted}

abbrev fatal : String → Call → List Step
fatal message call = (call, some message) ∷ []

abbrev schemes : List Group → List Step → List Step
schemes [] steps = steps
schemes (group ∷ groups) steps = (add_to_scheme group, none) ∷ schemes groups steps

abbrev webhook_steps : Bool → List Step
webhook_steps false = []
webhook_steps true =
    schemes (dockyards ∷ []) (
      fatal "error creating workload template webhooks"
        (complete_webhook workload_template_webhook_registration))
    ++ fatal "error creating workload template webhooks"
        (complete_webhook workload_webhook_registration)

-- The calls of the program in order.
abbrev pub program_steps : Flags → List Step
program_steps flags =
    fatal "error getting config" get_config
    ++ schemes (dockyards ∷ []) []
    ++ fatal "error creating manager" (new_manager flags.metrics_bind_address)
    ++ fatal "error adding index for workload" add_index
    ++ schemes (dockyards ∷ helm ∷ kustomize ∷ [])
        (fatal "error creating workload reconciler" (complete workload_registration))
    ++ schemes (dockyards ∷ source ∷ [])
        (fatal "error creating worktree reconciler" (complete (registration_for worktree)))
    ++ schemes (core ∷ kustomize ∷ []) (
        fatal "error creating kustomization reconciler" (complete (registration_for kustomization)))
    ++ schemes (dockyards ∷ helm ∷ [])
        (fatal "error creating helm release reconciler" (complete (registration_for helm_release)))
    ++ schemes (dockyards ∷ source ∷ []) (
        fatal "error creating source repository reconciler"
          (complete source_repository_registration))
    ++ webhook_steps flags.enable_webhooks
    ++ fatal "error starting manager" start

module _ {E : Type 0} (answers : Answers E) where
  -- A part of the program makes exactly these calls.
  record Makes (part : Main E) (steps : List Step) : Type 0 where
    made : (trace : Trace) → part trace ≡ run answers steps trace

  -- The schemes are added before the step.
  abbrev in_schemes : List Group → (Trace → Trace × Option E) → Trace → Trace × Option E
  in_schemes [] step = step
  in_schemes (group ∷ groups) step = with_scheme answers group (in_schemes groups step)

  setup_run :
      (message : String) (groups : List Group) (call : Call) (trace : Trace)
      → or_exit message (in_schemes groups (attempt answers call)) trace
        ≡ run answers (schemes groups (fatal message call)) trace
  unfolding run
  setup_run message [] call trace = elim (Option-cases (answers trace call)) [
    | inl fine ↦ ground (arith, fine)
    | inr (e, wrong) ↦ ground (arith, wrong)
  ]
  setup_run message (group ∷ groups) call trace =
      setup_run message groups call (trace ++ add_to_scheme group ∷ [])

  setup-Makes :
      (message : String) (groups : List Group) (call : Call)
      → Makes
          (or_exit message (in_schemes groups (attempt answers call)))
          (schemes groups (fatal message call))
  setup-Makes message groups call = record { made = setup_run message groups call }

  run-append :
      (xs ys : List Step) (trace : Trace)
      → run answers (xs ++ ys) trace ≡ (run answers xs >> run answers ys) trace
  unfolding run
  run-append [] ys trace = refl
  run-append ((call, none) ∷ xs) ys trace = run-append xs ys (trace ++ call ∷ [])
  run-append ((call, some message) ∷ xs) ys trace = elim (Option-cases (answers trace call)) [
    | inl fine ↦ ground (arith, fine, run-append xs ys (trace ++ call ∷ []))
    | inr (e, wrong) ↦ ground (arith, wrong)
  ]

  infixl 5 ◌andthen◌
  ◌andthen◌ :
      {first second : Main E} {xs ys : List Step}
      → Makes first xs
      → Makes second ys
      → Makes (first >> second) (xs ++ ys)
  ◌andthen◌ {first} {second} {xs} {ys} h h' = record {
    made = λ trace.
        ap (λ (f : Main E). (f >> second) trace) (fun_ext h.made)
        ∙ ap (λ (g : Main E). (run answers xs >> g) trace) (fun_ext h'.made)
        ∙ sym (run-append xs ys trace);
  }

  ignore-Makes :
      (group : Group)
      → Makes (ignore (attempt answers (add_to_scheme group))) (schemes (group ∷ []) [])
  unfolding run
  ignore-Makes group = record { made = λ trace. refl }

  start_webhooks-Makes :
      (enable : Bool) → Makes (start_webhooks answers enable) (webhook_steps enable)
  unfolding start_webhooks run
  start_webhooks-Makes false = record { made = λ trace. refl }
  start_webhooks-Makes true =
      setup-Makes "error creating workload template webhooks" (dockyards ∷ [])
        (complete_webhook workload_template_webhook_registration)
      andthen setup-Makes "error creating workload template webhooks" []
          (complete_webhook workload_webhook_registration)

  start_program-Makes : (flags : Flags) → Makes (start_program answers flags) (program_steps flags)
  unfolding start_program
  start_program-Makes flags =
      setup-Makes "error getting config" [] get_config
      andthen ignore-Makes dockyards
      andthen setup-Makes "error creating manager" [] (new_manager flags.metrics_bind_address)
      andthen setup-Makes "error adding index for workload" [] add_index
      andthen setup-Makes "error creating workload reconciler" (dockyards ∷ helm ∷ kustomize ∷ [])
          (complete workload_registration)
      andthen setup-Makes "error creating worktree reconciler" (dockyards ∷ source ∷ [])
          (complete (registration_for worktree))
      andthen setup-Makes "error creating kustomization reconciler" (core ∷ kustomize ∷ [])
          (complete (registration_for kustomization))
      andthen setup-Makes "error creating helm release reconciler" (dockyards ∷ helm ∷ [])
          (complete (registration_for helm_release))
      andthen setup-Makes "error creating source repository reconciler" (dockyards ∷ source ∷ [])
          (complete source_repository_registration)
      andthen start_webhooks-Makes flags.enable_webhooks
      andthen setup-Makes "error starting manager" [] start

  -- The program either makes all its calls in order, none that it checks having failed, or exits at
  -- the first that fails, with the message and the error of that call and no call after it; errors of
  -- AddToScheme are ignored. The webhooks are set up exactly where the flag is given, after all
  -- controllers, and the manager is started last.
  pub start_program_cases :
      (flags : Flags)
      → let (trace, result) = start_program answers flags [] in
        IsCompleted answers (program_steps flags) [] trace result
        ⊎ IsAborted answers (program_steps flags) [] trace result
  start_program_cases flags =
      let (trace, result) = start_program answers flags [] in
      run_cases answers (program_steps flags) [] trace result
        (sym ((start_program-Makes flags).made []))
