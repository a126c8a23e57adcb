-- ===== src/Api/Conditions.antt =====
-- github.com/fluxcd/pkg/runtime/conditions, on the conditions of an object.
use dockyards_flux.Base.{ℕ, String, Bool, Option, List}
use dockyards_flux.Api.Objects.{Condition}

-- An argument of a message's format.
pub data FormatArgument (E : Type 0) : Type 0 where
  cause : Option E → FormatArgument E
  count : ℕ → FormatArgument E

pub record Conditions (E : Type 0) : Type 0 where
  -- MarkFalse and MarkTrue, with the type, the reason, and the format and arguments of the message
  pub mark_false :
      List Condition → String → String → String → List (FormatArgument E) → List Condition
  pub mark_true :
      List Condition → String → String → String → List (FormatArgument E) → List Condition
  pub delete : List Condition → String → List Condition
  pub is_false : List Condition → String → Bool
  pub is_reconciling : List Condition → Bool
  -- SetSummary with WithConditions and WithNegativePolarityConditions
  pub set_summary : List Condition → String → List String → List String → List Condition
