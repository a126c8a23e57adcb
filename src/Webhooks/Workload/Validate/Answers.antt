-- ===== src/Webhooks/Workload/Validate/Answers.antt =====
-- The warnings and the error lists of `validate` in webhooks/workload_webhook.go.
use dockyards_flux.Base.{String, none, some, List, ◌++◌, ◌≡◌}
use dockyards_flux.Api.Constants.{workload_kind}
use dockyards_flux.Api.Objects.{Workload}
use dockyards_flux.Api.Errors.{ApiErrors, FieldError, not_valid, Answer, reply, crash}
use dockyards_flux.Api.Client.{Reader, GroupVersions}
use dockyards_flux.Api.Cue.{Cue}

module _ {E : Type 0} (errors : ApiErrors E) (gv : GroupVersions) (reader : Reader E)
    (cue : Cue E) where
  -- An answer that carries these warnings, and whose list of field errors, if it has one, begins with
  -- these errors and is about the workload.
  abbrev pub Reports : Workload → List String → List (FieldError E) → Answer E → Type 0
  Reports w ws errs crash = Unit {0}
  Reports w ws errs (reply ws' none) = ws' ≡ ws
  Reports w ws errs (reply ws' (some (not_valid kind name found))) =
      (ws' ≡ ws)
      × (kind ≡ workload_kind)
      × (name ≡ w.name)
      × (more : List (FieldError E)) × (found ≡ errs ++ more)
  Reports w ws errs (reply ws' (some e)) = ws' ≡ ws
