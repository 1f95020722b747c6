-- ===== src/Routes/Deliveries.antt =====
-- What a delivery of a processor may do.
use chargeback_iq.Prelude.{
  ◌+◌, ◌<◌, String, Option, Bool, true, false, ◌≡◌, ◌≢◌, refl, sym, ap, ◌∙◌, arith,
}
use chargeback_iq.Errors.{Thrown}
use chargeback_iq.Schema.{Db, Env, Payload}
use chargeback_iq.Signature.{
  Check, valid, missing_signature_headers, malformed_timestamp, signature_mismatch,
  timestamp_outside_tolerance, is_blank, buffer,
}
use chargeback_iq.Signature.Laws.{verify_signature_replay}
use chargeback_iq.Tx.{Outcome, returned, threw}
use chargeback_iq.Tx.Laws.{SameTables}
use chargeback_iq.Tx.Keeps.{state_of}
use chargeback_iq.Repositories.Webhooks.{NewDelivery, find_delivery}
use chargeback_iq.Repositories.Disputes.{draw_uuid}
use chargeback_iq.Services.WebhookService.{Processed, process_delivery, duplicate}
use chargeback_iq.Services.WebhookService.Idempotency.{process_delivery_once}
use chargeback_iq.Services.WebhookService.Unsigned.{SameCases, unsigned_keeps}
use chargeback_iq.Errors.{app, validation_error, no_details}
use chargeback_iq.Routes.{Response, reply, error_handler}
use chargeback_iq.Routes.Pages.{refusal≢reply}
use chargeback_iq.Routes.Webhooks.{
  Parsed, no_json, null_value, value, Platform, WebhookRequest, WebhookReply, is_valid, or_else,
  id_of, signed_delivery, answer_delivery, check, new_delivery, deliver, post_webhook,
}

not_valid : (c : Check) → c ≢ valid → is_valid c ≡ false
not_valid valid h = absurd (h refl)
not_valid missing_signature_headers h = refl
not_valid malformed_timestamp h = refl
not_valid signature_mismatch h = refl
not_valid (timestamp_outside_tolerance age) h = refl

answered-SameCases :
    (db : Db) (o : Outcome Processed)
    → SameCases db (state_of o)
    → SameCases db (answer_delivery o).1
answered-SameCases db (returned r s) c = c
answered-SameCases db (threw e s) c = c

unchanged : (db : Db) → SameCases db db
unchanged db = record { disputes = refl; events = refl; evidence = refl }

-- Whatever a request says whose signature does not pass the check, and however it is answered, no
-- dispute, event or evidence item is added or changed.
pub post_webhook_forged :
    (p : Platform) (env : Env) (req : WebhookRequest) (db : Db)
    → check p env req ≢ valid
    → SameCases db (post_webhook p env req db).1
unfolding post_webhook deliver
post_webhook_forged p env req db forged = of_body (p.parse_json req.raw_body) refl
  where
    of_delivery :
        (b : Bool) (id : Option String) (type : Option String) (payload : Payload)
        → is_blank id ≡ b
        → SameCases db (deliver p env req id type payload db).1
    of_delivery true id type payload e = rw e (unchanged db)
    of_delivery false id type payload e = rw e (
        answered-SameCases db
          (process_delivery env (new_delivery p env req (buffer id) type payload) db)
          ((unsigned_keeps env (new_delivery p env req (buffer id) type payload)
              (not_valid (check p env req) forged) db).at
            db (unchanged db)))

    of_body :
        (body : Parsed)
        → p.parse_json req.raw_body ≡ body
        → SameCases db (post_webhook p env req db).1
    of_body no_json e = rw e (unchanged db)
    of_body null_value e = rw e (unchanged db)
    of_body (value id type payload) e = rw e (
        of_delivery (is_blank (or_else id req.webhook_id)) (or_else id req.webhook_id) type payload
          refl)

-- A captured request that passed the check, sent again unchanged more than ten minutes later, changes no
-- dispute, event or evidence item.
pub post_webhook_replayed :
    (p : Platform) (env later : Env) (req : WebhookRequest) (db : Db)
    → check p env req ≡ valid
    → env.now + 600_000 < later.now
    → SameCases db (post_webhook p later req db).1
unfolding check
post_webhook_replayed p env later req db passed late =
    let (age, old, beyond) =
      verify_signature_replay p.runtime (signed_delivery p env req) later.now passed
        (omega (arith, late)) in
    post_webhook_forged p later req db (λ e. absurd (cc (sym old ∙ e)))

refused_reply :
    {A : Type 0} {x : A} {s t : Db} (e : Thrown) (u : Response A × Db)
    → u ≡ (error_handler e, s)
    → u ≡ (reply 200 x, t)
    → ⊥
refused_reply e u h k = refusal≢reply e u k h

module _ (p : Platform) (env : Env) (req : WebhookRequest) (db : Db) (id type : Option String)
    (payload : Payload) (parsed : p.parse_json req.raw_body ≡ value id type payload) where
  answers :
      is_blank (or_else id req.webhook_id) ≡ false
      → post_webhook p env req db
        ≡ answer_delivery (
            process_delivery env
              (new_delivery p env req (buffer (or_else id req.webhook_id)) type payload)
              db)
  unfolding post_webhook deliver
  answers e = rw (parsed, e) refl

  refuses :
      is_blank (or_else id req.webhook_id) ≡ true
      → post_webhook p env req db
        ≡ (error_handler (app (validation_error "Webhook is missing an event id." no_details)), db)
  unfolding post_webhook deliver
  refuses e = rw (parsed, e) refl

-- A request that was answered with 200 is answered once: a later request of the same processor with the
-- same event id, whatever else it says and whether or not it is signed, is answered with 200 as a duplicate
-- of the delivery on record, and every table is as it was.
pub post_webhook_again :
    (p : Platform) (env later : Env) (req again : WebhookRequest) (db db' : Db) (x : WebhookReply)
    (id id2 type type2 : Option String) (payload payload2 : Payload)
    → p.parse_json req.raw_body ≡ value id type payload
    → p.parse_json again.raw_body ≡ value id2 type2 payload2
    → or_else id2 again.webhook_id ≡ or_else id req.webhook_id
    → p.to_upper_case again.processor ≡ p.to_upper_case req.processor
    → post_webhook p env req db ≡ (reply 200 x, db')
    → (post_webhook p later again db' ≡ (
      reply 200 (record {
        outcome = duplicate;
        delivery_id = id_of (
            find_delivery (p.to_upper_case req.processor) (buffer (or_else id req.webhook_id)) db');
      }),
      draw_uuid db',
    ))
      × SameTables db' (draw_uuid db')
post_webhook_again p env later req again db db' x id id2 type type2 payload payload2 parsed parsed2
      same_id same_processor h =
    of_blank (is_blank (or_else id req.webhook_id)) refl
  where
    first : NewDelivery
    first = new_delivery p env req (buffer (or_else id req.webhook_id)) type payload

    second : NewDelivery
    second = new_delivery p later again (buffer (or_else id2 again.webhook_id)) type2 payload2

    answer : Response WebhookReply × Db
    answer = (
      reply 200 (record {
        outcome = duplicate;
        delivery_id = id_of (
            find_delivery (p.to_upper_case req.processor) (buffer (or_else id req.webhook_id)) db');
      }),
      draw_uuid db',
    )

    of_outcome :
        (o : Outcome Processed)
        → process_delivery env first db ≡ o
        → is_blank (or_else id req.webhook_id) ≡ false
        → answer_delivery o ≡ (reply 200 x, db')
        → (post_webhook p later again db' ≡ answer) × SameTables db' (draw_uuid db')
    of_outcome (threw e s) q b k = absurd (refused_reply e _ refl k)
    of_outcome (returned r s) q b k =
        let state : s ≡ db' = cc in
        let (once, tables) =
          process_delivery_once env later first second db r db' (q ∙ ap (returned r) state)
            same_processor (ap buffer same_id) in
        (
          answers p later again db' id2 type2 payload2 parsed2 (ap is_blank same_id ∙ b)
              ∙ ap answer_delivery once,
          tables,
        )

    of_blank :
        (b : Bool)
        → is_blank (or_else id req.webhook_id) ≡ b
        → (post_webhook p later again db' ≡ answer) × SameTables db' (draw_uuid db')
    of_blank true e = absurd (
        refused_reply _ (post_webhook p env req db) (refuses p env req db id type payload parsed e)
          h)
    of_blank false e =
        of_outcome (process_delivery env first db) refl e
          (sym (answers p env req db id type payload parsed e) ∙ h)
