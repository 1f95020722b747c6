-- ===== src/Tests/World.antt =====
-- A database with one merchant, one payment and one reason code over the seeded reference data, and
-- the surroundings of a call.
use chargeback_iq.Prelude.{ℕ, zero, suc, String, none, some, true, false, [], ◌∷◌}
use chargeback_iq.Prelude.Int.{pos}
use chargeback_iq.Deadlines.{at}
use chargeback_iq.Schema.{Db, Env, Dispute}
use chargeback_iq.Tx.Keeps.{state_of}
use chargeback_iq.Repositories.Disputes.{NewEvidence}
use chargeback_iq.Repositories.Webhooks.{NewDelivery}
use chargeback_iq.Services.DisputeService.{
  OpenInput, OpenedDispute, open_dispute, ChangeInput, change_status,
}
use chargeback_iq.Seeds.{seeded_transitions, seeded_statuses, seeded_rules}

abbrev uuid : ℕ → String
uuid zero = "u0"
uuid (suc zero) = "u1"
uuid (suc (suc zero)) = "u2"
uuid (suc (suc (suc zero))) = "u3"
uuid (suc (suc (suc (suc n)))) = "later"

abbrev pub env : Env
env = record {
  now = 5_000;
  db_now = 5_001;
  random_uuid = uuid;
  parse_date = λ s. at 4_000;
  database_message = λ s. s;
}

abbrev pub empty_db : Db
empty_db = record {
  statuses = seeded_statuses;
  transitions = seeded_transitions;
  rules = seeded_rules;
  reason_codes =
      record {
        id = "r1";
        network_code = "VISA";
        code = "10.4";
        title = "Other Fraud";
        category_code = "FRAUD";
        workflow = "ALLOCATION";
        counts_as_fraud = true;
      }
      ∷ [];
  merchants = record { id = "m1"; name = "Shop"; mid = "42"; region = "US" } ∷ [];
  payments =
      record {
        id = "p1";
        merchant_id = "m1";
        processor_code = "ADYEN";
        network_code = "VISA";
        processor_transaction_id = "psp1";
        amount_minor = pos 1_000;
        currency = "USD";
        is_card_present = false;
        avs_result_code = none;
        cvv_matched = none;
        three_ds_authenticated = false;
        customer_email = none;
        billing_country = none;
        shipping_country = none;
        occurred_at = 1_000;
        settled_at = none;
      }
      ∷ [];
  operators =
      record { id = "op1"; email = "ann@shop.example"; full_name = "Ann"; role = "ANALYST" } ∷ [];
  processors = "ADYEN" ∷ [];
  networks = "VISA" ∷ "MASTERCARD" ∷ [];
  avs_codes = "Y" ∷ "N" ∷ [];
  evidence_kinds = record { code = "RECEIPT"; name = "Receipt"; description = "" } ∷ [];
  requirements =
      record { reason_code_id = "r1"; evidence_kind_code = "RECEIPT"; requirement = "REQUIRED" }
      ∷ [];
  volumes = [];
  disputes = [];
  events = [];
  evidence = [];
  deliveries = [];
  drawn = 0;
  event_seq = 0;
}

abbrev pub opening : OpenInput
opening = record {
  transaction_id = "p1";
  reason_code = some "10.4";
  case_number = some "C-1";
  received_at = none;
  root_cause = none;
  cycle = none;
  disputed_amount_minor = none;
  currency = none;
  dispute_fee_minor = none;
}

abbrev pub first_dispute : Dispute
first_dispute = record {
  id = "u0";
  case_number = "C-1";
  transaction_id = "p1";
  network_code = "VISA";
  reason_code_id = "r1";
  status_code = "CHARGEBACK_RECEIVED";
  root_cause = "UNDETERMINED";
  cycle = 1;
  disputed_amount_minor = pos 1_000;
  currency = "USD";
  dispute_fee_minor = pos 0;
  provisional_credit_to_cardholder_at = some 5_000;
  received_at = 5_000;
  respond_by = 777_605_000;
  assigned_to = none;
  closed_at = none;
  updated_at = 5_001;
}

abbrev pub opened : OpenedDispute
opened = record { dispute = first_dispute; reason_code = "10.4"; warn_days_before = 3 }

abbrev pub opened_db : Db
opened_db = state_of (open_dispute env opening empty_db)

abbrev pub review : ChangeInput
review = record {
  dispute_id = "u0";
  to_status = "UNDER_REVIEW";
  triggered_by = "OPERATOR";
  actor_id = some "op1";
  note = none;
  payload = [];
}

abbrev pub reviewed : Dispute
reviewed = record first_dispute { status_code = "UNDER_REVIEW"; updated_at = 5_001 }

abbrev pub reviewed_db : Db
reviewed_db = state_of (change_status env review opened_db)

abbrev pub receipt : NewEvidence
receipt = record {
  dispute_id = "u0";
  kind_code = "RECEIPT";
  description = none;
  file_ref = none;
  collected_by = some "op1";
}

abbrev pub created : NewDelivery
created = record {
  processor_code = "ADYEN";
  external_event_id = "e1";
  event_type = "dispute.created";
  payload = record {
    transaction_id = some "psp1";
    case_number = some "C-1";
    reason_code = some "10.4";
    amount_minor = none;
    currency = none;
    received_at = none;
  };
  signature_valid = true;
}

-- The same delivery from somebody who cannot sign it.
abbrev pub forged : NewDelivery
forged = record created { signature_valid = false }
