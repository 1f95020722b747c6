-- ===== src/Services/DisputeService.antt =====
-- src/services/disputeService.js: opening a dispute, moving it, adding evidence and the sweep of
-- overdue cases.
pub mod ChangeStatus
pub mod OpenDispute
pub mod Rows
pub mod Draws
pub mod Outcomes
use Prim.Native.String.{◌++◌}
use chargeback_iq.Prelude.{
  ℕ, suc, String, Option, none, some, Bool, true, false, List, [], ◌∷◌, find, ◌==◌, shown, is_some,
  or_default, length, if◌then◌else◌,
}
use mathlib.Core.List.{◌++◌ as append}
use chargeback_iq.Prelude.Int.{ℤ, pos}
use chargeback_iq.Errors.{
  AppError, Thrown, app, database, Result, not_found_error, validation_error, no_details, Details,
}
use chargeback_iq.Lifecycle.{Transition, Move, assert_transition}
use chargeback_iq.Deadlines.{
  JsValue, date, invalid_date, whole, Date, at, invalid, DeadlineRule, select_deadline_rule,
  compute_respond_by,
}
use chargeback_iq.Schema.{
  Db, Env, Dispute, Event, Evidence, Json, text, number, time, Status, ReasonCode,
}
use chargeback_iq.Tx.{
  M, Outcome, returned, threw, ◌>>=◌, ◌>>◌, pure, reads, or_throw, lift, throw_if, catch,
  with_transaction,
}
use chargeback_iq.Repositories.Reference.{
  list_status_transitions, list_deadline_rules, list_statuses, find_reason_code,
}
use chargeback_iq.Repositories.Transactions.{Context, find_transaction_context}
use chargeback_iq.Repositories.Disputes.{
  NewDispute, NewEvent, insert_dispute, find_dispute_by_id, DisputeDetails,
  find_dispute_by_case_number, lock_dispute_for_update, update_dispute_status, append_event,
  count_evidence, insert_evidence, has_code,
}
use chargeback_iq.Repositories.Disputes.Queue.{list_overdue_open_disputes}

-- The second argument of `openDispute`.
pub record OpenInput : Type 0 where
  pub transaction_id : String
  pub reason_code : Option String
  pub case_number : Option String
  pub received_at : Option Date
  pub root_cause : Option String
  pub cycle : Option ℕ
  pub disputed_amount_minor : Option ℤ
  pub currency : Option String
  pub dispute_fee_minor : Option ℤ

abbrev pub js_date : Date → JsValue
js_date (at t) = date t
js_date invalid = invalid_date

-- The time of a valid Date; `computeRespondBy` has thrown on the other.
abbrev pub time_of : Date → ℕ
time_of (at t) = t
time_of invalid = 0

-- What `openDispute` returns: the row, and two values beside it.
pub record OpenedDispute : Type 0 where
  pub dispute : Dispute
  pub reason_code : String
  pub warn_days_before : ℕ

abbrev missing_deadline_rule : Context → AppError
missing_deadline_rule context = record {
  name = "AppError";
  message =
      "No deadline rule configured for " ++ context.network_code ++ " / " ++ context.merchant_region
      ++ ".";
  status = 500;
  code = "MISSING_DEADLINE_RULE";
  details = no_details;
}

module _ (env : Env) (input : OpenInput) where
  -- The values of the row that is inserted.
  abbrev pub opened_row : Context → ReasonCode → (received_at respond_by : Date) → NewDispute
  opened_row context reason_code received_at respond_by = record {
    case_number = input.case_number;
    transaction_id = context.id;
    network_code = context.network_code;
    reason_code_id = reason_code.id;
    status_code = "CHARGEBACK_RECEIVED";
    root_cause = or_default input.root_cause "UNDETERMINED";
    cycle = or_default input.cycle 1;
    disputed_amount_minor = or_default input.disputed_amount_minor context.amount_minor;
    currency = or_default input.currency context.currency;
    dispute_fee_minor = or_default input.dispute_fee_minor (pos 0);
    received_at = time_of received_at;
    respond_by = respond_by;
    provisional_credit_to_cardholder_at = some (time_of received_at);
  }

  -- The event that records the opening.
  abbrev pub opened_event : Context → ReasonCode → DeadlineRule → (id : String) → NewEvent
  opened_event context reason_code rule id = record {
    dispute_id = id;
    event_type = "DISPUTE_OPENED";
    from_status = none;
    to_status = some "CHARGEBACK_RECEIVED";
    actor_type = "PROCESSOR_EVENT";
    actor_id = none;
    note = some ("Opened under " ++ reason_code.code ++ " (" ++ reason_code.title ++ ").");
    payload =
        ("processor", text context.processor_code)
        ∷ ("responseDays", number rule.response_days)
        ∷ ("warnDaysBefore", number rule.warn_days_before)
        ∷ ("workflow", text reason_code.workflow)
        ∷ [];
  }

  -- The two writes of `openDispute`.
  unfoldable pub write_opened :
      Context → ReasonCode → DeadlineRule → (received_at respond_by : Date) → M OpenedDispute
  write_opened context reason_code rule received_at respond_by = do
    dispute ← insert_dispute env (opened_row context reason_code received_at respond_by)
    append_event env (opened_event context reason_code rule dispute.id)
    pure (record {
      dispute = dispute;
      reason_code = reason_code.code;
      warn_days_before = rule.warn_days_before;
    })

  -- The checks of `openDispute` after the reason code is known, and the writes.
  unfoldable pub open_for : Context → ReasonCode → M OpenedDispute
  open_for context reason_code = do
    existing ← reads (find_dispute_by_case_number input.case_number)
    throw_if (is_some existing) (
        validation_error ("Case number " ++ shown input.case_number ++ " already exists.")
          no_details)
    let received_at = or_default input.received_at (at env.now)
    rules ← reads list_deadline_rules
    rule ←
        or_throw
          (select_deadline_rule rules (record {
            network_code = context.network_code;
            stage = "CHARGEBACK_RECEIVED";
            region = context.merchant_region;
            processor_code = some context.processor_code;
          }))
          (missing_deadline_rule context)
    respond_by ← lift (compute_respond_by (js_date received_at) (whole (pos rule.response_days)))
    write_opened context reason_code rule received_at respond_by

  unfoldable pub open_in : Context → M OpenedDispute
  open_in context = do
    known ← reads (find_reason_code context.network_code input.reason_code)
    reason_code ← or_throw known (
        validation_error
          ("Reason code "
            ++ shown input.reason_code
            ++ " is not valid for "
            ++ context.network_code
            ++ ".")
          no_details)
    open_for context reason_code

  unfoldable pub open_body : M OpenedDispute
  open_body = do
    found ← reads (find_transaction_context input.transaction_id)
    context ←
        or_throw found (not_found_error ("Transaction " ++ input.transaction_id ++ " not found."))
    open_in context

  unfoldable pub open_dispute : M OpenedDispute
  open_dispute = with_transaction open_body

-- The second argument of `changeStatus`.
pub record ChangeInput : Type 0 where
  pub dispute_id : String
  pub to_status : String
  pub triggered_by : String
  pub actor_id : Option String
  pub note : Option String
  pub payload : List (String × Json)

abbrev pub dispute_not_found : String → AppError
dispute_not_found id = not_found_error ("Dispute " ++ id ++ " not found.")

abbrev pub concurrent_modification : AppError
concurrent_modification = record {
  name = "AppError";
  message = "Dispute changed while this update was in flight.";
  status = 409;
  code = "CONCURRENT_MODIFICATION";
  details = no_details;
}

-- `target?.is_terminal ? new Date() : null`
abbrev pub closing_time : ℕ → Option Status → Option ℕ
closing_time now none = none
closing_time now (some s) = if s.is_terminal then some now else none

abbrev pub move_of : ChangeInput → Dispute → Move
move_of input current = record {
  from = current.status_code;
  to = input.to_status;
  triggered_by = input.triggered_by;
}

module _ (env : Env) (input : ChangeInput) where
  -- The two writes of `changeStatus`, once the move is allowed.
  unfoldable pub write_change : Dispute → ℕ → M Dispute
  write_change current evidence_count = do
    statuses ← reads list_statuses
    let closed_at = closing_time env.now (find (has_code input.to_status) statuses)
    row ← update_dispute_status env input.dispute_id current.status_code input.to_status closed_at
    updated ← or_throw row concurrent_modification
    append_event env (record {
      dispute_id = input.dispute_id;
      event_type = "STATUS_CHANGED";
      from_status = some current.status_code;
      to_status = some input.to_status;
      actor_type = input.triggered_by;
      actor_id = input.actor_id;
      note = input.note;
      payload = append input.payload (("evidenceCount", number evidence_count) ∷ []);
    })
    pure updated

  -- The checks on the row that is locked, and the writes.
  unfoldable pub change_locked : Dispute → M Dispute
  change_locked current = do
    transitions ← reads list_status_transitions
    evidence_count ← reads (count_evidence input.dispute_id)
    lift (assert_transition transitions (move_of input current) evidence_count)
    write_change current evidence_count

  unfoldable pub change_body : M Dispute
  change_body = do
    locked ← reads (lock_dispute_for_update input.dispute_id)
    current ← or_throw locked (dispute_not_found input.dispute_id)
    change_locked current

  unfoldable pub change_status : M Dispute
  change_status = with_transaction change_body
