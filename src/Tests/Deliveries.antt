-- ===== src/Tests/Deliveries.antt =====
-- Deliveries of a processor: signed, forged and repeated.
use Prim.Native.String.{◌++◌}
use chargeback_iq.Prelude.{ℕ, ◌<◌, none, some, true, false, ◌≡◌, ◌⊎◌, refl, dec_text, arith}
use chargeback_iq.Schema.{Db}
use chargeback_iq.Signature.{
  Runtime, Delivery, valid, safe_compare, compute_signature, verify_signature, check_age,
  check_signature, timestamp_outside_tolerance,
}
use chargeback_iq.Signature.Laws.{
  IsSigned, safe_compare_iff, verify_signature_iff, verify_signature_replay,
}
use chargeback_iq.Tx.{returned, with_transaction}
use chargeback_iq.Tx.Laws.{SameTables}
use chargeback_iq.Tx.Keeps.{state_of}
use chargeback_iq.Repositories.Disputes.{draw_uuid}
use chargeback_iq.Repositories.Webhooks.{
  record_delivery, find_delivery, delivery_violation, mark_delivery,
}
use chargeback_iq.Services.WebhookService.{
  Processed, duplicate, rejected, process_delivery, process_recorded, finish,
}
use chargeback_iq.Services.WebhookService.Idempotency.{duplicate_of, process_delivery_once}
use chargeback_iq.Services.WebhookService.Unsigned.{SameCases, process_delivery_unsigned}
use chargeback_iq.Tests.World.{env, empty_db, created, forged}

-- A digest that is no digest, and timestamps that are all the fifth second.
abbrev toy : Runtime
toy = record { hmac_sha256 = λ secret text. secret ++ text; to_seconds = λ s. some 5 }

abbrev signed : Delivery
signed = record {
  secret = "key";
  timestamp = some "5";
  raw_body = "{}";
  signature = some "key5.{}";
  tolerance_seconds = 300;
  now = 5_000;
}

signed_is_valid : verify_signature toy signed ≡ valid
unfolding verify_signature check_age check_signature compute_signature safe_compare dec_text
signed_is_valid = refl

verify_signature_iff_example : IsSigned toy signed
verify_signature_iff_example = (verify_signature_iff toy signed).0 signed_is_valid

verify_signature_replay_test :
    (age : ℕ) × (verify_signature toy (record signed { now = 605_001 })
      ≡ timestamp_outside_tolerance age)
    × (300_000 < age)
verify_signature_replay_test =
    verify_signature_replay toy signed 605_001 signed_is_valid (omega arith)

safe_compare_iff_test : safe_compare (some "abc") (some "abc") ≡ true
safe_compare_iff_test = (safe_compare_iff (some "abc") (some "abc")).1 refl

-- The forged delivery, and the genuine one with its event id.
abbrev forged_db : Db
forged_db = state_of (process_delivery env forged empty_db)

abbrev forged_answer : Processed
forged_answer = record {
  outcome = rejected;
  delivery = some (record {
    id = "u0";
    processor_code = "ADYEN";
    external_event_id = "e1";
    event_type = "dispute.created";
    payload = forged.payload;
    signature_valid = false;
    status = "FAILED";
    dispute_id = none;
    error_message = some "Signature verification failed.";
    processed_at = some 5_001;
  });
  dispute = none;
  error = none;
}

forged_is_rejected : process_delivery env forged empty_db ≡ returned forged_answer forged_db
unfolding process_delivery record_delivery with_transaction delivery_violation process_recorded
    finish mark_delivery dec_text
forged_is_rejected = refl

process_delivery_unsigned_test :
    SameCases empty_db forged_db
    × ((forged_answer.outcome ≡ duplicate) ⊎ (forged_answer.outcome ≡ rejected))
process_delivery_unsigned_test =
    process_delivery_unsigned env forged refl empty_db forged_answer forged_db forged_is_rejected

process_delivery_once_example :
    (process_delivery env created forged_db
      ≡ returned (duplicate_of (find_delivery "ADYEN" "e1" forged_db)) (draw_uuid forged_db))
    × SameTables forged_db (draw_uuid forged_db)
process_delivery_once_example =
    process_delivery_once env env forged created empty_db forged_answer forged_db forged_is_rejected
      refl refl
