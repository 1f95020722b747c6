-- ===== src/Repositories/Webhooks.antt =====
-- src/repositories/webhookRepository.js: storage for inbound webhook deliveries, with the constraints
-- of migrations/008_webhook_events.sql.
use chargeback_iq.Prelude.{
  String, Option, none, some, Bool, ◌&&◌, List, ◌∷◌, map, find, any, if◌then◌else◌, ◌==◌,
}
use chargeback_iq.Schema.{Db, Env, Delivery, Payload}
use chargeback_iq.Tx.{M, returned, write_unless}
use chargeback_iq.Repositories.Disputes.{draw_uuid, has_id, refers}

-- What a processor delivered.
pub record NewDelivery : Type 0 where
  pub processor_code : String
  pub external_event_id : String
  pub event_type : String
  pub payload : Payload
  pub signature_valid : Bool

-- The unique key of a delivery.
abbrev pub has_key : (processor_code external_event_id : String) → Delivery → Bool
has_key processor_code external_event_id d =
    d.processor_code == processor_code && d.external_event_id == external_event_id

unfoldable pub find_delivery : (processor_code external_event_id : String) → Db → Option Delivery
find_delivery processor_code external_event_id db =
    find (has_key processor_code external_event_id) db.deliveries

abbrev pub delivery_row : Env → Db → NewDelivery → Delivery
delivery_row env db d = record {
  id = env.random_uuid db.drawn;
  processor_code = d.processor_code;
  external_event_id = d.external_event_id;
  event_type = d.event_type;
  payload = d.payload;
  signature_valid = d.signature_valid;
  status = "RECEIVED";
  dispute_id = none;
  error_message = none;
  processed_at = none;
}

-- The primary key and the foreign key to `processors`.
unfoldable pub delivery_violation : Db → Delivery → Option String
delivery_violation db d =
    if any (λ e. e.id == d.id) db.deliveries
    then some "23505"
    else if any (λ p. p == d.processor_code) db.processors
    then none
    else some "23503"

abbrev pub add_delivery : Delivery → Db → Db
add_delivery d db = record db { deliveries = d ∷ db.deliveries }

abbrev pub insert_new : Env → NewDelivery → Option Delivery → M (Option Delivery)
insert_new env d (some seen) db = returned none (draw_uuid db)
insert_new env d none db =
    let row = delivery_row env db d in
    write_unless (delivery_violation db row) (some row) (add_delivery row (draw_uuid db))
      (draw_uuid db)

-- ON CONFLICT DO NOTHING: no row comes back when the key is there.
unfoldable pub record_delivery : Env → NewDelivery → M (Option Delivery)
record_delivery env d db =
    insert_new env d (find (has_key d.processor_code d.external_event_id) db.deliveries) db

-- The SET of the update.
pub record Mark : Type 0 where
  pub id : String
  pub status : String
  pub dispute_id : Option String
  pub error_message : Option String

abbrev pub marked : Env → Mark → Delivery → Delivery
marked env m d = record d {
  status = m.status;
  dispute_id = m.dispute_id;
  error_message = m.error_message;
  processed_at = some env.db_now;
}

abbrev pub mark_each : Env → Mark → List Delivery → List Delivery
mark_each env m = map (λ d. if d.id == m.id then marked env m d else d)

-- The foreign key to `disputes`; every caller writes a status that the CHECK allows.
abbrev pub mark_violation : Db → Mark → Option String
mark_violation db m =
    if refers (λ id. any (has_id id) db.disputes) m.dispute_id then none else some "23503"

abbrev pub mark_found : Env → Mark → Option Delivery → M (Option Delivery)
mark_found env m none db = returned none db
mark_found env m (some d) db =
    write_unless (mark_violation db m) (some (marked env m d))
      (record db { deliveries = mark_each env m db.deliveries }) db

unfoldable pub mark_delivery : Env → Mark → M (Option Delivery)
mark_delivery env m db = mark_found env m (find (λ d. d.id == m.id) db.deliveries) db
