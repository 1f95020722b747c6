-- ===== src/Routes/Webhooks.antt =====
-- src/routes/webhooks.js: a signed delivery of a processor, to a response.
use chargeback_iq.Prelude.{String, Option, none, some, Bool, true, false, if◌then◌else◌, or_default}
use chargeback_iq.Errors.{app, validation_error, no_details}
use chargeback_iq.Schema.{Db, Env, Payload, Delivery}
use chargeback_iq.Signature.{
  Delivery as Signed, Runtime, Check, valid, missing_signature_headers, malformed_timestamp,
  signature_mismatch, timestamp_outside_tolerance, verify_signature, is_blank, buffer,
}
use chargeback_iq.Tx.{Outcome, returned, threw}
use chargeback_iq.Repositories.Webhooks.{NewDelivery}
use chargeback_iq.Services.WebhookService.{
  WebhookOutcome, duplicate, rejected, dispute_opened, ignored, status_changed, failed, Processed,
  process_delivery,
}
use chargeback_iq.Routes.{Response, reply, refusal, ErrorBody, internal_error, error_handler}

-- `JSON.parse`: it throws, or it gives null, or a value whose `id`, `type` and further fields are read;
-- a field that is absent or null is none.
pub data Parsed : Type 0 where
  no_json null_value : Parsed
  value : (id type : Option String) → Payload → Parsed

-- What the route uses of its platform: HMAC-SHA256 and Number(), JSON.parse, toUpperCase and
-- `process.env.WEBHOOK_SIGNING_SECRET`.
pub record Platform : Type 0 where
  pub runtime : Runtime
  pub parse_json : String → Parsed
  pub to_upper_case : String → String
  pub signing_secret : Option String

pub record WebhookRequest : Type 0 where
  pub processor : String
  pub raw_body : String
  pub timestamp : Option String
  pub signature : Option String
  pub webhook_id : Option String

pub record WebhookReply : Type 0 where
  pub outcome : WebhookOutcome
  pub delivery_id : Option String

abbrev pub is_valid : Check → Bool
is_valid valid = true
is_valid missing_signature_headers = false
is_valid malformed_timestamp = false
is_valid signature_mismatch = false
is_valid (timestamp_outside_tolerance age) = false

-- `a ?? b`
abbrev pub or_else : Option String → Option String → Option String
or_else none b = b
or_else (some a) b = some a

abbrev pub id_of : Option Delivery → Option String
id_of none = none
id_of (some d) = some d.id

abbrev pub invalid_signature : ErrorBody
invalid_signature = record {
  code = "INVALID_SIGNATURE";
  message = "Signature verification failed.";
  details = no_details;
}

-- The response to what `processDelivery` has come to.
abbrev pub respond : Processed → Response WebhookReply
respond result = elim result.outcome [
  | rejected ↦ refusal 401 invalid_signature
  | duplicate ↦ reply 200 (record { outcome = duplicate; delivery_id = id_of result.delivery })
  | dispute_opened ↦
      reply 200 (record { outcome = dispute_opened; delivery_id = id_of result.delivery })
  | ignored ↦ reply 200 (record { outcome = ignored; delivery_id = id_of result.delivery })
  | status_changed ↦
      reply 200 (record { outcome = status_changed; delivery_id = id_of result.delivery })
  | failed ↦ reply 200 (record { outcome = failed; delivery_id = id_of result.delivery })
]

abbrev pub answer_delivery : Outcome Processed → Response WebhookReply × Db
answer_delivery (returned result db) = (respond result, db)
answer_delivery (threw e db) = (error_handler e, db)

module _ (p : Platform) (env : Env) (req : WebhookRequest) where
  -- The argument of `verifySignature`, whose tolerance and clock have their defaults.
  abbrev pub signed_delivery : Signed
  signed_delivery = record {
    secret = or_default p.signing_secret "";
    timestamp = req.timestamp;
    raw_body = req.raw_body;
    signature = req.signature;
    tolerance_seconds = 300;
    now = env.now;
  }

  unfoldable pub check : Check
  unfolding verify_signature
  check = verify_signature p.runtime signed_delivery

  abbrev pub new_delivery : (event_id : String) (type : Option String) → Payload → NewDelivery
  new_delivery event_id type payload = record {
    processor_code = p.to_upper_case req.processor;
    external_event_id = event_id;
    event_type = or_default type "unknown";
    payload = payload;
    signature_valid = is_valid check;
  }

  -- From `externalEventId` on.
  unfoldable pub deliver :
      Option String → (type : Option String) → Payload → Db → Response WebhookReply × Db
  deliver event_id type payload db =
      if is_blank event_id
      then (error_handler (app (validation_error "Webhook is missing an event id." no_details)), db)
      else answer_delivery (process_delivery env (new_delivery (buffer event_id) type payload) db)

  -- `payload.id` of null throws a TypeError, which `errorHandler` answers as any unexpected error.
  abbrev pub handle_body : Parsed → Db → Response WebhookReply × Db
  unfolding deliver
  handle_body no_json db =
      (error_handler (app (validation_error "Webhook body is not valid JSON." no_details)), db)
  handle_body null_value db = (refusal 500 internal_error, db)
  handle_body (value id type payload) db = deliver (or_else id req.webhook_id) type payload db

  unfoldable pub post_webhook : Db → Response WebhookReply × Db
  post_webhook db = handle_body (p.parse_json req.raw_body) db
