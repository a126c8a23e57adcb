-- ===== src/Api/Errors.antt =====
-- Errors. `E` is Go's `error` without nil, and `Option E` is `error`.
use dockyards_flux.Base.{String, Bool, false, Option, none, List, ◌≡◌, if◌then◌else◌}
use dockyards_flux.Api.Objects.{Bytes}

-- client.IgnoreNotFound and apierrors.IsNotFound
pub record ApiErrors (E : Type 0) : Type 0 where
  pub is_not_found : Option E → Bool
  pub ignore_not_found : Option E → Option E

-- What they document: IgnoreNotFound returns nil on a NotFound error, and any other error, or nil,
-- unmodified; nil is not a NotFound error.
pub record IsLawfulErrors {E : Type 0} (errors : ApiErrors E) : Type 0 where
  pub is_not_found-nil : errors.is_not_found none ≡ false
  pub ignore_not_found_lem :
      (e : Option E) → errors.ignore_not_found e ≡ (if errors.is_not_found e then none else e)

-- An argument of type `any` of a field error.
pub data FieldValue : Type 0 where
  text : String → FieldValue
  bytes : Bytes → FieldValue

-- The calls of k8s.io/apimachinery/pkg/util/validation/field that make an error; a path is the list
-- of its names.
pub data FieldError (E : Type 0) : Type 0 where
  required : (path : List String) (detail : String) → FieldError E
  invalid : (path : List String) (value : FieldValue) (detail : String) → FieldError E
  forbidden : (path : List String) (detail : String) → FieldError E
  not_found : (path : List String) (value : String) → FieldError E
  internal_error : (path : List String) (cause : Option E) → FieldError E

-- The errors that a webhook returns: apierrors.NewBadRequest, apierrors.NewInvalid with the kind and
-- the name of the object, and an error that it passes on.
pub data AdmissionError (E : Type 0) : Type 0 where
  bad_request : String → AdmissionError E
  not_valid : (kind name : String) (errors : List (FieldError E)) → AdmissionError E
  passed_on : E → AdmissionError E

-- The answer of a validating webhook: warnings and an error, or a panic.
pub data Answer (E : Type 0) : Type 0 where
  reply : List String → Option (AdmissionError E) → Answer E
  crash : Answer E
