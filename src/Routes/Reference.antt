-- ===== src/Routes/Reference.antt =====
-- src/routes/reference.js and src/routes/compliance.js: the routes that only read.
use chargeback_iq.Prelude.{ℕ, String, Option, some, List}
use chargeback_iq.Lifecycle.{Transition}
use chargeback_iq.Deadlines.{DeadlineRule}
use chargeback_iq.Schema.{Db, Status, ReasonCode}
use chargeback_iq.Tx.{M, ◌>>=◌, reads, lift}
use chargeback_iq.Repositories.Reference.{
  list_statuses, list_status_transitions, list_deadline_rules, find_reason_code,
}
use chargeback_iq.Repositories.Volumes.{Calendar}
use chargeback_iq.Ratios.{Rounding}
use chargeback_iq.Services.Compliance.{Report, evaluate_all_programmes}
use chargeback_iq.Routes.{Response, serve, validate_query}

-- GET /api/reference/statuses
unfoldable pub get_statuses : Db → Response (List Status) × Db
get_statuses = serve 200 (reads list_statuses)

-- GET /api/reference/transitions
unfoldable pub get_transitions : Db → Response (List Transition) × Db
get_transitions = serve 200 (reads list_status_transitions)

-- GET /api/reference/deadline-rules
unfoldable pub get_deadline_rules : Db → Response (List DeadlineRule) × Db
get_deadline_rules = serve 200 (reads list_deadline_rules)

-- GET /api/reference/reason-codes/:network/:code, with `toUpperCase` as a parameter
unfoldable pub get_reason_code :
    (to_upper_case : String → String) (network code : String)
    → Db
    → Response (Option ReasonCode) × Db
get_reason_code to_upper_case network code =
    serve 200 (reads (find_reason_code (to_upper_case network) (some code)))

-- The data of complianceQuerySchema: the month is the start of the first day of the one that is named.
pub record ComplianceQuery : Type 0 where
  pub merchant_id : String
  pub period_month : ℕ

module _ {J : Type 0} (compliance_query : J → Option ComplianceQuery) (r : Rounding)
    (cal : Calendar) where
  abbrev evaluate : ComplianceQuery → M Report
  evaluate q = evaluate_all_programmes r cal q.merchant_id q.period_month

  -- GET /api/compliance
  unfoldable pub compliance_body : (query : J) → M Report
  compliance_body query = do q ← lift (validate_query (compliance_query query)); evaluate q

  unfoldable pub get_compliance : (query : J) → Db → Response Report × Db
  get_compliance query = serve 200 (compliance_body query)
