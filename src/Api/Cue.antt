-- ===== src/Api/Cue.antt =====
-- The part of cuelang.org/go that the code calls, and os.Getwd.
use dockyards_flux.Base.{ℕ, String, Bool, Option, List}
use dockyards_flux.Base.Outcome.{Result}
use dockyards_flux.Api.Objects.{Bytes}

-- A Go `int`: `negsuc n` is -(n + 1).
pub data ℤ : Type 0 where
  pos : ℕ → ℤ
  negsuc : ℕ → ℤ

pub record Cue (E : Type 0) : Type 1 where
  pub Instance : Type 0
  pub Value : Type 0
  pub CueError : Type 0
  pub getwd : Result E String
  -- load.Instances with a package name and an overlay
  pub instances : String → List (String × Bytes) → List Instance
  pub instance_err : Instance → Option CueError
  pub build_instance : Instance → Value
  pub err : Value → Option E
  -- LookupPath(cue.MakePath(cue.Def(name)))
  pub lookup_def : Value → String → Value
  pub exists : Value → Bool
  -- errors.Errors, and the text and offset of one error
  pub errors : E → List CueError
  pub error : CueError → String
  pub offset : CueError → ℤ
  -- encoding/json.Validate
  pub json_validate : Bytes → Value → Option E
