-- ===== src/Webhooks/Template.antt =====
-- webhooks/workloadtemplate_webhook.go
pub mod Accepts
pub mod Scan
use dockyards_flux.Base.{
  ℕ, zero, suc, String, Bool, Option, none, some, List, [], ◌∷◌, ◌++◌, if◌then◌else◌, eqb,
}
use dockyards_flux.Base.Outcome.{Result, ok, err}
use dockyards_flux.Api.Constants.{workload_template_kind}
use dockyards_flux.Api.Objects.{
  Bytes, WorkloadTemplate, RuntimeObject, workload, workload_template, other,
}
use dockyards_flux.Api.Errors.{
  FieldError, invalid, required, bytes, AdmissionError, bad_request, not_valid, passed_on, Answer,
  reply,
}
use dockyards_flux.Api.Cue.{Cue, ℤ, pos, negsuc}
use dockyards_flux.Webhooks.Workload.Validate.{load_template}

abbrev pub drop : ℕ → Bytes → Bytes
drop zero source = source
drop (suc n) [] = []
drop (suc n) (b ∷ source) = drop n source

abbrev add_byte : ℕ → Option Bytes → Option Bytes
add_byte b none = none
add_byte b (some line) = some (b ∷ line)

-- The bytes before the first newline, or before the end; `none` where the buffer, of the given size,
-- is full before.
abbrev pub take_line : ℕ → Bytes → Option Bytes
take_line zero source = none
take_line (suc n) [] = some []
take_line (suc n) (b ∷ source) = if eqb b 10 then some [] else add_byte b (take_line n source)

-- bufio.ScanLines drops a carriage return at the end of a line.
abbrev pub drop_cr : Bytes → Bytes
drop_cr [] = []
drop_cr (b ∷ []) = if eqb b 13 then [] else b ∷ []
drop_cr (b ∷ c ∷ line) = b ∷ drop_cr (c ∷ line)

-- bufio.MaxScanTokenSize
abbrev pub max_scan_token_size : ℕ
max_scan_token_size = 65536

abbrev pub line_text : Option Bytes → Bytes
line_text none = []
line_text (some line) = drop_cr line

-- `scanner.Scan()` on a new scanner, and `scanner.Text()`: a line that is too long has no text
unfoldable pub scan_text : Bytes → Bytes
scan_text source = line_text (take_line max_scan_token_size source)

abbrev source_path : List String
source_path = "spec" ∷ "source" ∷ []

-- `new_error` is errors.New
module _ {E : Type 0} (new_error : String → E) (cue : Cue E) where
  open cue use {Value, CueError, Instance}

  -- `reader.Seek(offset, io.SeekStart)`, and the line there
  abbrev pub line_at : Bytes → ℤ → Result E Bytes
  line_at source (pos n) = ok (scan_text (drop n source))
  line_at source (negsuc n) = err (new_error "strings.Reader.Seek: negative position")

  abbrev pub invalid_source : CueError → Result E Bytes → Result E (FieldError E)
  invalid_source e (ok line) = ok (invalid source_path (bytes line) (cue.error e))
  invalid_source e (err cause) = err cause

  abbrev append_error :
      List (FieldError E) → Result E (FieldError E) → Result E (List (FieldError E))
  append_error errs (ok e) = ok (errs ++ e ∷ [])
  append_error errs (err cause) = err cause

  -- the loop over the errors of a build, which returns at the first offset that cannot be sought
  unfoldable pub append_build_errors :
      Bytes → List CueError → List (FieldError E) → Result E (List (FieldError E))
  append_build_errors source [] errs = ok errs
  append_build_errors source (e ∷ es) errs =
      elim (invalid_source e (line_at source (cue.offset e))) [
        | err cause ↦ err cause
        | ok error ↦ append_build_errors source es (errs ++ error ∷ [])
      ]

  abbrev missing_definition : Value → String → String → List (FieldError E)
  missing_definition v name detail =
      if cue.exists (cue.lookup_def v name)
      then []
      else required ("spec" ∷ "source" ∷ name ∷ []) detail ∷ []

  abbrev pub definition_errors : Value → List (FieldError E)
  definition_errors v =
      missing_definition v "#cluster" "must have cluster definition"
      ++ missing_definition v "#workload" "must have workload definition"

  -- the loop over the instances; `break` is the end of the list that is returned
  unfoldable pub append_instance_errors :
      Bytes → List Instance → List (FieldError E) → Result E (List (FieldError E))
  unfolding append_build_errors
  append_instance_errors source [] errs = ok errs
  append_instance_errors source (instance ∷ rest) errs = elim (cue.instance_err instance) [
    | some e ↦ append_error errs (invalid_source e (line_at source (cue.offset e)))
    | none ↦ elim (cue.err (cue.build_instance instance)) [
      | some e ↦ append_build_errors source (cue.errors e) errs
      | none ↦
          append_instance_errors source rest
            (errs ++ definition_errors (cue.build_instance instance))
    ]
  ]

  abbrev pub finish_template :
      WorkloadTemplate → Result E (List (FieldError E)) → Option (AdmissionError E)
  finish_template t (err cause) = some (passed_on cause)
  finish_template t (ok []) = none
  finish_template t (ok (e ∷ es)) = some (not_valid workload_template_kind t.name (e ∷ es))

  unfoldable pub validate_workload_template : WorkloadTemplate → Option (AdmissionError E)
  unfolding append_instance_errors
  validate_workload_template t = elim cue.getwd [
    | err cause ↦ some (passed_on cause)
    | ok wd ↦ finish_template t (append_instance_errors t.source (load_template cue wd t) [])
  ]

  unfoldable pub validate_template_create : RuntimeObject → Answer E
  unfolding validate_workload_template
  validate_template_create (workload_template t) = reply [] (validate_workload_template t)
  validate_template_create (workload w) = reply [] (some (bad_request "unexpected type"))
  validate_template_create other = reply [] (some (bad_request "unexpected type"))

  unfoldable pub validate_template_update : RuntimeObject → RuntimeObject → Answer E
  unfolding validate_workload_template
  validate_template_update old (workload_template t) = reply [] (validate_workload_template t)
  validate_template_update old (workload w) = reply [] (some (bad_request "unexpected type"))
  validate_template_update old other = reply [] (some (bad_request "unexpected type"))

  unfoldable pub validate_template_delete : RuntimeObject → Answer E
  validate_template_delete object = reply [] none
