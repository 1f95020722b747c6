-- ===== src/Routes.antt =====
-- src/routes and src/middleware: a request, as the web framework hands it to the handlers of its route,
-- to the status and the body of the response.
--
-- A handler that throws is answered by `errorHandler`, as Express 5 does. Headers and the log lines are
-- left out; the order of the routers and the rate limit are App. What `safeParse` of a schema accepts is
-- the record Schemas.
pub mod Disputes
pub mod Pages
pub mod Actions
pub mod Anonymous
pub mod Queue
pub mod Requirements
pub mod Webhooks
pub mod Openings
pub mod Reference
pub mod Deliveries
pub mod App
use Prim.Native.String.{◌++◌}
use chargeback_iq.Prelude.{ℕ, String, Option, none, some}
use chargeback_iq.Errors.{
  AppError, Thrown, app, database, Result, ok, err, Details, no_details, issues, validation_error,
}
use chargeback_iq.Schema.{Db}
use chargeback_iq.Tx.{M, Outcome, returned, threw}

-- `{ error: { code, message, details } }`
pub record ErrorBody : Type 0 where
  pub code : String
  pub message : String
  pub details : Details

-- A status with `{ data }`, or with an error.
pub data Response (A : Type 0) : Type 0 where
  reply : (status : ℕ) → A → Response A
  refusal : (status : ℕ) → ErrorBody → Response A

abbrev pub internal_error : ErrorBody
internal_error = record {
  code = "INTERNAL_ERROR";
  message = "An unexpected error occurred.";
  details = no_details;
}

unfoldable pub error_handler : {A : Type 0} → Thrown → Response A
error_handler (app e) =
    refusal e.status (record { code = e.code; message = e.message; details = e.details })
error_handler (database sqlstate) = refusal 500 internal_error

-- No route matches.
unfoldable pub not_found_handler : {A : Type 0} → (method path : String) → Response A
not_found_handler method path = refusal 404 (record {
  code = "NOT_FOUND";
  message = "No route matches " ++ method ++ " " ++ path;
  details = no_details;
})

abbrev pub answer : {A : Type 0} → (status : ℕ) → Outcome A → Response A × Db
answer status (returned a db) = (reply status a, db)
answer status (threw e db) = (error_handler e, db)

-- The response to a handler that sends `status` when it gets to its end, and the state after it.
unfoldable pub serve : {A : Type 0} → (status : ℕ) → M A → Db → Response A × Db
serve status handler db = answer status (handler db)

-- `schema.safeParse` and what the middleware makes of it.
abbrev pub validate : {A : Type 0} → (message : String) → Option A → Result A
validate message none = err (app (validation_error message issues))
validate message (some a) = ok a

module _ {A : Type 0} where
  abbrev pub validate_body : Option A → Result A
  validate_body = validate "Request body failed validation."

  abbrev pub validate_query : Option A → Result A
  validate_query = validate "Query parameters failed validation."

  abbrev pub validate_params : Option A → Result A
  validate_params = validate "Path parameters failed validation."
