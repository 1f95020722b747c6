-- ===== src/Repositories/Disputes/Laws.antt =====
-- What the writes of the dispute repository leave behind when they return.
use chargeback_iq.Prelude.{
  ℕ, String, Option, none, some, true, false, List, [], ◌∷◌, ◌≡◌, refl, arith, find, any, map, sym,
  ap,
}
use mathlib.Core.Option
use mathlib.Core.Option.{some-injective}
use chargeback_iq.Schema.{Db, Env, Dispute, Event, Evidence}
use chargeback_iq.Errors.{Result, ok, err}
use chargeback_iq.Tx.{returned, write_unless}
use chargeback_iq.Repositories.Disputes.{
  NewEvent, event_row, event_violation, add_event, draw_event, append_event, has_id, is_expected,
  with_status, replace, update_dispute_status, updated_row, status_violation, insert_evidence,
  NewEvidence, evidence_row, evidence_violation, add_evidence_row, draw_uuid, NewDispute,
  dispute_row, dispute_violation, add_dispute, insert_dispute, insert_row,
}

-- A guarded write that returned has met no violation.
pub write_unless-eq-returned :
    {A : Type 0} (v : Option String) (a b : A) (after db db' : Db)
    → write_unless v a after db ≡ returned b db'
    → (v ≡ none) × (b ≡ a) × (db' ≡ after)
write_unless-eq-returned none a b after db db' h = (refl, cc, cc)
write_unless-eq-returned (some c) a b after db db' h = cc

module _ (env : Env) where
  -- An appended event is the row that was asked for, on top of the events.
  pub append_event-eq-returned :
      (e : NewEvent) (v : Event) (db db' : Db)
      → append_event env e db ≡ returned v db'
      → (event_violation db (event_row env db e) ≡ none)
        × (v ≡ event_row env db e)
        × (db' ≡ add_event (event_row env db e) (draw_event db))
  unfolding append_event
  append_event-eq-returned e v db db' h = write_unless-eq-returned _ _ _ _ _ _ h

  pub insert_evidence-eq-returned :
      (e : NewEvidence) (v : Evidence) (db db' : Db)
      → insert_evidence env e db ≡ returned v db'
      → (evidence_violation db (evidence_row env db e) ≡ none)
        × (v ≡ evidence_row env db e)
        × (db' ≡ add_evidence_row (evidence_row env db e) (draw_uuid db))
  unfolding insert_evidence
  insert_evidence-eq-returned e v db db' h = write_unless-eq-returned _ _ _ _ _ _ h

  -- An update that returned a row found it, and has replaced it in the table.
  pub update_dispute_status-eq-some :
      (id from to : String) (closed_at : Option ℕ) (u : Dispute) (db db' : Db)
      → update_dispute_status env id from to closed_at db ≡ returned (some u) db'
      → (d : Dispute) × (find (is_expected id from) db.disputes ≡ some d)
        × (u ≡ with_status env to closed_at d)
        × (db' ≡ record db {
          disputes = replace (is_expected id from) (with_status env to closed_at) db.disputes;
        })
        × (status_violation db to ≡ none)
  unfolding update_dispute_status
  update_dispute_status-eq-some id from to closed_at u db db' h =
      from_row (find (is_expected id from) db.disputes) refl h
    where
      from_row :
          (o : Option Dispute)
          → find (is_expected id from) db.disputes ≡ o
          → updated_row env id from to closed_at o db ≡ returned (some u) db'
          → (d : Dispute) × (find (is_expected id from) db.disputes ≡ some d)
            × (u ≡ with_status env to closed_at d)
            × (db' ≡ record db {
              disputes = replace (is_expected id from) (with_status env to closed_at) db.disputes;
            })
            × (status_violation db to ≡ none)
      from_row none e h = cc
      from_row (some d) e h =
          let (v, same, after) = write_unless-eq-returned _ _ _ _ _ _ h in
          (d, e, some-injective _ _ same, after, v)

-- The row that is locked by its id is the one that the update expects.
pub find-is_expected :
    (id : String) (ds : List Dispute) (d : Dispute)
    → find (has_id id) ds ≡ some d
    → find (is_expected id d.status_code) ds ≡ some d
find-is_expected id [] d h = cc
find-is_expected id (x ∷ ds) d h = ground (arith, find-is_expected id ds d)

-- An operator's event without an operator violates a CHECK constraint.
pub event_violation_operator :
    (db : Db) (e : Event)
    → e.actor_type ≡ "OPERATOR"
    → e.actor_id ≡ none
    → event_violation db e ≡ some "23514"
unfolding event_violation
event_violation_operator db e h k = ground arith

-- An inserted dispute is the row that was asked for, on top of the disputes.
pub insert_dispute-eq-returned :
    (env : Env) (n : NewDispute) (d : Dispute) (db db' : Db)
    → insert_dispute env n db ≡ returned d db'
    → (dispute_row env (env.random_uuid db.drawn) n n.respond_by ≡ ok d)
      × (dispute_violation (draw_uuid db) d ≡ none)
      × (db' ≡ add_dispute d (draw_uuid db))
unfolding insert_dispute
insert_dispute-eq-returned env n d db db' h =
    from_row (dispute_row env (env.random_uuid db.drawn) n n.respond_by) h
  where
    from_row :
        (r : Result Dispute)
        → insert_row r (draw_uuid db) ≡ returned d db'
        → (r ≡ ok d)
          × (dispute_violation (draw_uuid db) d ≡ none)
          × (db' ≡ add_dispute d (draw_uuid db))
    from_row (err e) h = cc
    from_row (ok row) h =
        let (v, same, after) = write_unless-eq-returned _ _ _ _ _ _ h in
        (ap ok (sym same), rw same v, rw same after)

-- Looking a dispute up by its id.
pub find-none_of_any :
    (id : String) (ds : List Dispute) → any (has_id id) ds ≡ false → find (has_id id) ds ≡ none
find-none_of_any id [] h = refl
find-none_of_any id (d ∷ ds) h = ground (arith, find-none_of_any id ds)

pub any-of_find :
    (id : String) (ds : List Dispute) (d : Dispute)
    → find (has_id id) ds ≡ some d
    → any (has_id id) ds ≡ true
any-of_find id [] d h = cc
any-of_find id (e ∷ ds) d h = ground (arith, any-of_find id ds d)

-- A change of the rows that keeps their ids.
module _ (f : Dispute → Dispute) (same : (d : Dispute) → (f d).id ≡ d.id) where
  pub find-map :
      (id : String) (ds : List Dispute)
      → find (has_id id) (map f ds) ≡ Option.map f (find (has_id id) ds)
  find-map id [] = refl
  find-map id (d ∷ ds) = ground (arith, same d, find-map id ds)

  pub any-map : (id : String) (ds : List Dispute) → any (has_id id) (map f ds) ≡ any (has_id id) ds
  any-map id [] = refl
  any-map id (d ∷ ds) = ground (arith, same d, any-map id ds)
