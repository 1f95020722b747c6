-- ===== src/Tests/Webhooks.antt =====
-- Requests to the webhook route.
use Prim.Native.String.{◌++◌}
use chargeback_iq.Prelude.{none, some, ◌≡◌, ◌≢◌, refl, dec_text, arith}
use chargeback_iq.Schema.{Db}
use chargeback_iq.Objects.{is_inherited}
use chargeback_iq.Signature.{
  valid, verify_signature, check_age, check_signature, compute_signature, safe_compare,
  signature_mismatch,
}
use chargeback_iq.Tx.{with_transaction}
use chargeback_iq.Tx.Laws.{SameTables}
use chargeback_iq.Repositories.Disputes.{draw_uuid}
use chargeback_iq.Repositories.Webhooks.{
  record_delivery, find_delivery, delivery_violation, mark_delivery,
}
use chargeback_iq.Services.WebhookService.{
  process_delivery, process_recorded, finish, handle, handle_status, event_to_status, duplicate,
  ignored,
}
use chargeback_iq.Services.WebhookService.Unsigned.{SameCases}
use chargeback_iq.Routes.{reply}
use chargeback_iq.Routes.Webhooks.{
  value, Platform, WebhookRequest, WebhookReply, id_of, check, deliver, post_webhook,
}
use chargeback_iq.Routes.Deliveries.{post_webhook_forged, post_webhook_replayed, post_webhook_again}
use chargeback_iq.Tests.World.{env, empty_db, created}

-- A digest that is no digest, and bodies that all read as one unknown event.
abbrev pub platform : Platform
platform = record {
  runtime = record { hmac_sha256 = λ secret text. secret ++ text; to_seconds = λ s. some 5 };
  parse_json = λ s. value (some "e1") (some "dispute.noted") created.payload;
  to_upper_case = λ s. "ADYEN";
  signing_secret = some "key";
}

abbrev signed : WebhookRequest
signed = record {
  processor = "adyen";
  raw_body = "{}";
  timestamp = some "5";
  signature = some "key5.{}";
  webhook_id = none;
}

abbrev forged_request : WebhookRequest
forged_request = record signed { signature = some "5.{}" }

passes : check platform env signed ≡ valid
unfolding check verify_signature check_age check_signature compute_signature safe_compare dec_text
passes = refl

fails_as : check platform env forged_request ≡ signature_mismatch
unfolding check verify_signature check_age check_signature compute_signature safe_compare dec_text
fails_as = refl

fails : check platform env forged_request ≢ valid
fails = λ e. absurd (cc (fails_as, e))

post_webhook_forged_example :
    SameCases empty_db (post_webhook platform env forged_request empty_db).1
post_webhook_forged_example = post_webhook_forged platform env forged_request empty_db fails

post_webhook_replayed_test :
    SameCases empty_db (post_webhook platform (record env { now = 605_001 }) signed empty_db).1
post_webhook_replayed_test =
    post_webhook_replayed platform env (record env { now = 605_001 }) signed empty_db passes
      (omega arith)

abbrev after : Db
after = (post_webhook platform env signed empty_db).1

abbrev noted : WebhookReply
noted = record { outcome = ignored; delivery_id = some "u0" }

answered : post_webhook platform env signed empty_db ≡ (reply 200 noted, after)
unfolding post_webhook deliver process_delivery record_delivery with_transaction delivery_violation
    process_recorded finish mark_delivery handle handle_status event_to_status check
    verify_signature check_age check_signature compute_signature safe_compare dec_text is_inherited
answered = refl

-- The forged request carries the id of the genuine one.
post_webhook_again_example :
    (post_webhook platform env forged_request after ≡ (
      reply 200
          (record { outcome = duplicate; delivery_id = id_of (find_delivery "ADYEN" "e1" after) }),
      draw_uuid after,
    ))
    × SameTables after (draw_uuid after)
post_webhook_again_example =
    post_webhook_again platform env env signed forged_request empty_db after noted (some "e1")
      (some "e1") (some "dispute.noted") (some "dispute.noted") created.payload created.payload refl
      refl refl refl answered
