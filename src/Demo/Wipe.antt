-- ===== src/Demo/Wipe.antt =====
-- scripts/seed.js: `wipe`, with the foreign keys and the trigger of migrations/004_operational_schema.sql,
-- 007_event_purge_escape_hatch.sql and 008_webhook_events.sql that its statements meet.
pub mod Ends
use Prim.Native.String.{slice}
use chargeback_iq.Prelude.{
  ℕ, String, Option, none, some, Bool, true, false, not, ◌&&◌, ◌||◌, List, [], ◌∷◌, any, keep,
  if◌then◌else◌, ◌==◌,
}
use chargeback_iq.Schema.{
  Db, Dispute, Event, Evidence, Delivery, Merchant, Payment, Operator, Volume,
}
use chargeback_iq.Tx.{
  M, Outcome, returned, threw, ◌>>=◌, ◌>>◌, pure, write_unless, with_transaction,
}
use chargeback_iq.Repositories.Disputes.{has_id, is_operator}

-- `mid LIKE 'DEMO%'`
abbrev pub is_demo : Merchant → Bool
is_demo m = slice m.mid 0 4 == "DEMO"

-- `email LIKE 'demo-%'`
abbrev pub is_demo_operator : Operator → Bool
is_demo_operator o = slice o.email 0 5 == "demo-"

-- `id IN (SELECT id FROM merchants WHERE mid LIKE 'DEMO%')`
abbrev pub is_demo_merchant : List Merchant → (id : String) → Bool
is_demo_merchant merchants id = any (λ (m : Merchant). m.id == id && is_demo m) merchants

-- The joins and the WHERE of `scoped`.
unfoldable pub in_scope : Db → Dispute → Bool
in_scope db d =
    any (λ (t : Payment). t.id == d.transaction_id && is_demo_merchant db.merchants t.merchant_id)
      db.payments

-- `id IN (${scoped})`
unfoldable pub is_scoped : Db → (id : String) → Bool
unfolding in_scope
is_scoped db id = any (λ (d : Dispute). d.id == id && in_scope db d) db.disputes

-- A nullable column under `IN`: NULL is in no list.
abbrev pub names : (String → Bool) → Option String → Bool
names p none = false
names p (some id) = p id

-- A DELETE that leaves a reference to a row that it deletes violates the foreign key.
abbrev pub delete_unless : (referenced : Bool) → (after : Db) → M (Unit {0})
delete_unless referenced after = write_unless (if referenced then some "23503" else none) tt after

-- `DELETE FROM webhook_deliveries WHERE dispute_id IN (…)`
unfoldable pub delete_deliveries : M (Unit {0})
delete_deliveries db =
    delete_unless false
      (record db {
        deliveries = keep (λ (w : Delivery). not (names (is_scoped db) w.dispute_id)) db.deliveries;
      })
      db

-- The trigger of `dispute_events`: without the signal of the transaction the first row raises P0001.
abbrev pub reject_event_mutation : (allow_event_purge : Bool) → (touched : Bool) → Option String
reject_event_mutation true touched = none
reject_event_mutation false true = some "P0001"
reject_event_mutation false false = none

abbrev pub is_event_scoped : Db → Event → Bool
is_event_scoped db e = is_scoped db e.dispute_id

-- `DELETE FROM dispute_events WHERE dispute_id IN (…)`
unfoldable pub delete_events : (allow_event_purge : Bool) → M (Unit {0})
delete_events allow_event_purge db =
    write_unless (reject_event_mutation allow_event_purge (any (is_event_scoped db) db.events)) tt
      (record db { events = keep (λ e. not (is_event_scoped db e)) db.events }) db

-- `DELETE FROM evidence_items WHERE dispute_id IN (…)`
unfoldable pub delete_evidence : M (Unit {0})
delete_evidence db =
    delete_unless false
      (record db {
        evidence = keep (λ (e : Evidence). not (is_scoped db e.dispute_id)) db.evidence;
      })
      db

-- Whether an event, an evidence item or a delivery belongs to a dispute that is selected.
abbrev pub is_dispute_used : (String → Bool) → Db → Bool
is_dispute_used selected db =
    any (λ (e : Event). selected e.dispute_id) db.events
    || (any (λ (e : Evidence). selected e.dispute_id) db.evidence
        || any (λ (w : Delivery). names selected w.dispute_id) db.deliveries)

-- `DELETE FROM disputes WHERE id IN (…)`
unfoldable pub delete_disputes : M (Unit {0})
delete_disputes db =
    delete_unless (is_dispute_used (is_scoped db) db)
      (record db { disputes = keep (λ (d : Dispute). not (is_scoped db d.id)) db.disputes }) db

-- `DELETE FROM monthly_volumes WHERE merchant_id IN (…)`
unfoldable pub delete_volumes : M (Unit {0})
delete_volumes db =
    delete_unless false
      (record db {
        volumes =
            keep (λ (v : Volume). not (is_demo_merchant db.merchants v.merchant_id)) db.volumes;
      })
      db

abbrev pub is_demo_payment : List Merchant → Payment → Bool
is_demo_payment merchants t = is_demo_merchant merchants t.merchant_id

-- Whether a dispute is about a payment that is deleted.
abbrev pub is_payment_used : Db → Bool
is_payment_used db =
    any
      (λ (d : Dispute).
        any (λ (t : Payment). t.id == d.transaction_id && is_demo_payment db.merchants t)
          db.payments)
      db.disputes

-- `DELETE FROM transactions WHERE merchant_id IN (…)`
unfoldable pub delete_payments : M (Unit {0})
delete_payments db =
    delete_unless (is_payment_used db)
      (record db { payments = keep (λ t. not (is_demo_payment db.merchants t)) db.payments }) db

-- Whether a payment or a volume is of a merchant that is deleted.
abbrev pub is_merchant_used : Db → Bool
is_merchant_used db =
    any (is_demo_payment db.merchants) db.payments
    || any (λ (v : Volume). is_demo_merchant db.merchants v.merchant_id) db.volumes

-- `DELETE FROM merchants WHERE mid LIKE 'DEMO%'`
unfoldable pub delete_merchants : M (Unit {0})
delete_merchants db =
    delete_unless (is_merchant_used db)
      (record db { merchants = keep (λ m. not (is_demo m)) db.merchants }) db

-- The id of an operator that is deleted.
abbrev pub is_demo_id : List Operator → (id : String) → Bool
is_demo_id operators id = any (λ o. is_operator id o && is_demo_operator o) operators

-- Whether an event, an evidence item or an assignment names an operator that is deleted.
abbrev pub is_operator_used : Db → Bool
is_operator_used db =
    any (λ (e : Event). names (is_demo_id db.operators) e.actor_id) db.events
    || (any (λ (e : Evidence). names (is_demo_id db.operators) e.collected_by) db.evidence
        || any (λ (d : Dispute). names (is_demo_id db.operators) d.assigned_to) db.disputes)

-- `DELETE FROM operators WHERE email LIKE 'demo-%'`
unfoldable pub delete_operators : M (Unit {0})
delete_operators db =
    delete_unless (is_operator_used db)
      (record db { operators = keep (λ o. not (is_demo_operator o)) db.operators }) db

-- The statements in their order; `set_config` gives the signal to the trigger.
unfoldable pub wipe_body : M (Unit {0})
wipe_body = do
  delete_deliveries
  delete_events true
  delete_evidence
  delete_disputes
  delete_volumes
  delete_payments
  delete_merchants
  delete_operators

unfoldable pub wipe : M (Unit {0})
wipe = with_transaction wipe_body
