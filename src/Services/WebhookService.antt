-- ===== src/Services/WebhookService.antt =====
-- src/services/webhookService.js: one delivery of a processor, from its record to its mark.
pub mod Keeps
pub mod Idempotency
pub mod Unsigned
use Prim.Native.String.{◌++◌}
use chargeback_iq.Prelude.{
  ℕ, String, Option, none, some, Bool, true, false, List, [], ◌∷◌, ◌==◌, shown, if◌then◌else◌,
}
use chargeback_iq.Objects.{is_inherited}
use chargeback_iq.Errors.{AppError, Thrown, app, database, validation_error, no_details}
use chargeback_iq.Deadlines.{Date, at}
use chargeback_iq.Schema.{Db, Env, Dispute, Delivery, Payload, Payment, text}
use chargeback_iq.Tx.{
  M, Outcome, returned, threw, ◌>>=◌, ◌>>◌, pure, reads, or_throw, catch, with_transaction,
}
use chargeback_iq.Repositories.Transactions.{find_transaction_by_processor_id}
use chargeback_iq.Repositories.Disputes.{find_dispute_by_case_number}
use chargeback_iq.Repositories.Webhooks.{
  NewDelivery, Mark, record_delivery, find_delivery, mark_delivery,
}
use chargeback_iq.Services.DisputeService.{
  OpenInput, OpenedDispute, open_dispute, ChangeInput, change_status,
}

-- `EVENT_TO_STATUS[eventType]`, where it is truthy: a status, or the text of a function that the object
-- inherits, as which no row of the table knows it.
unfoldable pub event_to_status : String → Option String
event_to_status event_type =
    if event_type == "dispute.created"
    then none
    else if event_type == "dispute.won"
    then some "WON"
    else if event_type == "dispute.lost"
    then some "LOST"
    else if event_type == "dispute.withdrawn"
    then some "WITHDRAWN"
    else if event_type == "dispute.pre_arbitration"
    then some "PRE_ARBITRATION"
    else if event_type == "__proto__"
    then some "[object Object]"
    else if event_type == "constructor"
    then some "function Object() { [native code] }"
    else if is_inherited event_type
    then some ("function " ++ event_type ++ "() { [native code] }")
    else none

pub data WebhookOutcome : Type 0 where
  duplicate rejected dispute_opened ignored status_changed failed : WebhookOutcome

-- What `processDelivery` returns.
pub record Processed : Type 0 where
  pub outcome : WebhookOutcome
  pub delivery : Option Delivery
  pub dispute : Option Dispute
  pub error : Option Thrown

abbrev pub message_of : Env → Thrown → String
message_of env (app e) = e.message
message_of env (database sqlstate) = env.database_message sqlstate

-- `payload.received_at ? new Date(payload.received_at) : new Date()`
abbrev pub received_date : Env → Option String → Date
received_date env none = at env.now
received_date env (some s) = if s == "" then at env.now else env.parse_date s

module _ (env : Env) where
  -- A mark in a transaction of its own, and the result that carries it.
  unfoldable pub finish : Mark → WebhookOutcome → Option Dispute → Option Thrown → M Processed
  finish mark outcome dispute error = do
    delivery ← with_transaction (mark_delivery env mark)
    pure (record { outcome = outcome; delivery = delivery; dispute = dispute; error = error })

abbrev pub processed_mark : Delivery → (dispute_id : String) → Mark
processed_mark delivery dispute_id = record {
  id = delivery.id;
  status = "PROCESSED";
  dispute_id = some dispute_id;
  error_message = none;
}

abbrev pub rejected_mark : Delivery → Mark
rejected_mark delivery = record {
  id = delivery.id;
  status = "FAILED";
  dispute_id = none;
  error_message = some "Signature verification failed.";
}

module _ (env : Env) (input : NewDelivery) where
  abbrev pub unknown_transaction : AppError
  unknown_transaction =
      validation_error
        ("Unknown transaction "
          ++ shown input.payload.transaction_id
          ++ " for "
          ++ input.processor_code
          ++ ".")
        no_details

  abbrev pub unknown_case : AppError
  unknown_case =
      validation_error ("No dispute with case number " ++ shown input.payload.case_number ++ ".")
        no_details

  abbrev pub open_input : Payment → OpenInput
  open_input t = record {
    transaction_id = t.id;
    reason_code = input.payload.reason_code;
    case_number = input.payload.case_number;
    received_at = some (received_date env input.payload.received_at);
    root_cause = none;
    cycle = none;
    disputed_amount_minor = input.payload.amount_minor;
    currency = input.payload.currency;
    dispute_fee_minor = none;
  }

  -- The branch of 'dispute.created'.
  unfoldable pub handle_created : Delivery → M Processed
  handle_created delivery = do
    found ←
        reads (find_transaction_by_processor_id input.processor_code input.payload.transaction_id)
    payment ← or_throw found unknown_transaction
    opened ← open_dispute env (open_input payment)
    finish env (processed_mark delivery opened.dispute.id) dispute_opened (some opened.dispute) none

  abbrev pub change_input : Dispute → (to_status : String) → ChangeInput
  change_input dispute to_status = record {
    dispute_id = dispute.id;
    to_status = to_status;
    triggered_by = "PROCESSOR_EVENT";
    actor_id = none;
    note = some ("Processor reported " ++ input.event_type ++ ".");
    payload =
        ("externalEventId", text input.external_event_id)
        ∷ ("processorCode", text input.processor_code)
        ∷ [];
  }

  -- The branches of the other events.
  unfoldable pub handle_status : Delivery → Option String → M Processed
  handle_status delivery none =
      finish env
        (record {
          id = delivery.id;
          status = "IGNORED";
          dispute_id = none;
          error_message = some ("No handler for event type " ++ input.event_type ++ ".");
        })
        ignored none none
  handle_status delivery (some to_status) = do
    found ← reads (find_dispute_by_case_number input.payload.case_number)
    dispute ← or_throw found unknown_case
    updated ← change_status env (change_input dispute to_status)
    finish env (processed_mark delivery dispute.id) status_changed (some updated) none

  -- The body of the `try`.
  unfoldable pub handle : Delivery → M Processed
  handle delivery =
      if input.event_type == "dispute.created"
      then handle_created delivery
      else handle_status delivery (event_to_status input.event_type)

  -- The `catch`.
  unfoldable pub handle_failure : Delivery → Thrown → M Processed
  handle_failure delivery e =
      finish env
        (record {
          id = delivery.id;
          status = "FAILED";
          dispute_id = none;
          error_message = some (message_of env e);
        })
        failed none (some e)

  -- What follows the record: nothing for a duplicate, a mark for a bad signature, or the handler.
  unfoldable pub process_recorded : Option Delivery → M Processed
  process_recorded none = do
    existing ← reads (find_delivery input.processor_code input.external_event_id)
    pure (record { outcome = duplicate; delivery = existing; dispute = none; error = none })
  process_recorded (some delivery) =
      if input.signature_valid
      then catch (handle delivery) (handle_failure delivery)
      else finish env (rejected_mark delivery) rejected none none

  unfoldable pub process_delivery : M Processed
  process_delivery = do
    delivery ← with_transaction (record_delivery env input)
    process_recorded delivery
