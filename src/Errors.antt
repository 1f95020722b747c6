-- ===== src/Errors.antt =====
-- src/lib/errors.js: the application's errors, with their HTTP status and code, and whatever else
-- a statement of the database may throw.
use chargeback_iq.Prelude.{ℕ, String}
use Prim.Native.String.{◌++◌}

-- The `details` of an error.
pub data Details : Type 0 where
  no_details : Details
  issues : Details
  move : (from to triggered_by : String) → Details
  path : (from to : String) → Details

pub record AppError : Type 0 where
  pub name : String
  pub message : String
  pub status : ℕ
  pub code : String
  pub details : Details

-- A thrown value: an `AppError`, or an error of the database driver with its SQLSTATE code.
pub data Thrown : Type 0 where
  app : AppError → Thrown
  database : (sqlstate : String) → Thrown

pub data Result {ℓ} (A : Type ℓ) : Type ℓ where
  ok : A → Result A
  err : Thrown → Result A

abbrev pub app_error : String → ℕ → String → AppError
app_error message status code = record {
  name = "AppError";
  message = message;
  status = status;
  code = code;
  details = no_details;
}

abbrev pub validation_error : String → Details → AppError
validation_error message details = record {
  name = "ValidationError";
  message = message;
  status = 400;
  code = "VALIDATION_ERROR";
  details = details;
}

abbrev pub not_found_error : String → AppError
not_found_error message = record {
  name = "NotFoundError";
  message = message;
  status = 404;
  code = "NOT_FOUND";
  details = no_details;
}

abbrev pub invalid_transition_error : (from to triggered_by : String) → AppError
invalid_transition_error from to triggered_by = record {
  name = "InvalidTransitionError";
  message =
      "Cannot move a dispute from " ++ from ++ " to " ++ to ++ " when triggered by " ++ triggered_by
      ++ ".";
  status = 409;
  code = "INVALID_TRANSITION";
  details = move from to triggered_by;
}

abbrev pub evidence_required_error : (from to : String) → AppError
evidence_required_error from to = record {
  name = "EvidenceRequiredError";
  message = "Moving from " ++ from ++ " to " ++ to ++ " requires at least one evidence item.";
  status = 422;
  code = "EVIDENCE_REQUIRED";
  details = path from to;
}
