-- ===== src/Services/DisputeService/ChangeStatus.antt =====
-- What a call of `changeStatus` has done, by how it ended.
use chargeback_iq.Prelude.{ℕ, ◌≤◌, Option, none, some, true, [], ◌∷◌, ◌≡◌, refl, sym, ap, ◌∙◌, find}
use mathlib.Core.Option.{some-injective}
use mathlib.Core.List.{◌++◌ as append}
use chargeback_iq.Errors.{Thrown, Result, ok, err}
use chargeback_iq.Lifecycle.{Transition, find_transition, assert_transition}
use chargeback_iq.Lifecycle.Laws.{assert_transition-eq-ok}
use chargeback_iq.Schema.{Db, Env, Dispute, number}
use chargeback_iq.Tx.{M, returned, threw, ◌>>=◌, ◌>>◌, or_throw, lift, pure}
use chargeback_iq.Tx.Laws.{
  SameTables, with_transaction-eq-threw, with_transaction-eq-returned, bind-eq-returned,
  returned-value, returned-state,
}
use chargeback_iq.Repositories.Reference.{list_status_transitions, list_statuses}
use chargeback_iq.Repositories.Disputes.{
  NewEvent, event_row, event_violation, add_event, draw_event, append_event, has_id, is_expected,
  with_status, replace, update_dispute_status, lock_dispute_for_update, count_evidence, has_code,
}
use chargeback_iq.Repositories.Disputes.Laws.{
  append_event-eq-returned, update_dispute_status-eq-some, find-is_expected,
}
use chargeback_iq.Services.DisputeService.{
  ChangeInput, move_of, closing_time, write_change, change_locked, change_body, change_status,
  dispute_not_found, concurrent_modification,
}

module _ (env : Env) (input : ChangeInput) where
  -- The time at which the move closes the case, if it does.
  abbrev pub closes_at : Db → Option ℕ
  closes_at db = closing_time env.now (find (has_code input.to_status) db.statuses)

  -- The row after the move.
  abbrev pub moved : Db → Dispute → Dispute
  moved db d = with_status env input.to_status (closes_at db) d

  -- The event that records the move.
  abbrev pub change_event : Dispute → ℕ → NewEvent
  change_event d evidence_count = record {
    dispute_id = input.dispute_id;
    event_type = "STATUS_CHANGED";
    from_status = some d.status_code;
    to_status = some input.to_status;
    actor_type = input.triggered_by;
    actor_id = input.actor_id;
    note = input.note;
    payload = append input.payload (("evidenceCount", number evidence_count) ∷ []);
  }

  -- The disputes after the move.
  abbrev pub with_moved : Db → Dispute → Db
  with_moved db d = record db {
    disputes =
        replace (is_expected input.dispute_id d.status_code)
          (with_status env input.to_status (closes_at db)) db.disputes;
  }

  -- The whole state after the move: the row replaced and one event added.
  abbrev pub after_change : Db → Dispute → Db
  after_change db d =
      add_event
        (event_row env (with_moved db d) (change_event d (count_evidence input.dispute_id db)))
        (draw_event (with_moved db d))

  -- What a call that returned has found and done.
  pub record IsChanged (db : Db) (updated : Dispute) (db' : Db) : Type 0 where
    pub current : Dispute
    pub found : find (has_id input.dispute_id) db.disputes ≡ some current
    pub row : Transition
    pub allowed : find_transition db.transitions (move_of input current) ≡ some row
    pub evidence : row.requires_evidence ≡ true → 1 ≤ count_evidence input.dispute_id db
    pub result : updated ≡ moved db current
    pub recorded :
        event_violation (with_moved db current) (
          event_row env
            (with_moved db current)
            (change_event current (count_evidence input.dispute_id db)))
        ≡ none
    pub state : db' ≡ after_change db current

  record_event : Dispute → ℕ → Dispute → M Dispute
  record_event current n d = append_event env (change_event current n) >> pure d

  record_event-eq-returned :
      (current : Dispute) (n : ℕ) (d u : Dispute) (db db' : Db)
      → record_event current n d db ≡ returned u db'
      → (u ≡ d)
        × (event_violation db (event_row env db (change_event current n)) ≡ none)
        × (db' ≡ add_event (event_row env db (change_event current n)) (draw_event db))
  unfolding record_event
  record_event-eq-returned current n d u db db' h =
      let (v, mid, e, done) =
        bind-eq-returned (append_event env (change_event current n)) _ db u db' h in
      let (allowed, same, after) =
        append_event-eq-returned env (change_event current n) v db mid e in
      (returned-value done, allowed, returned-state done ∙ after)

  -- The writes, once the row that the update expects is known.
  write_change-eq-returned :
      (current : Dispute) (n : ℕ) (u : Dispute) (db db' : Db)
      → find (has_id input.dispute_id) db.disputes ≡ some current
      → write_change env input current n db ≡ returned u db'
      → (u ≡ moved db current)
        × (event_violation
              (with_moved db current)
              (event_row env (with_moved db current) (change_event current n))
            ≡ none)
        × (db'
            ≡ add_event
                (event_row env (with_moved db current) (change_event current n))
                (draw_event (with_moved db current)))
  unfolding write_change list_statuses record_event
  write_change-eq-returned current n u db db' found h =
      let (row, db1, e1, h1) =
        bind-eq-returned
          (update_dispute_status env input.dispute_id current.status_code input.to_status
            (closes_at db))
          _ db u db' h in
      from_row row db1 e1 h1
    where
      from_row :
          (row : Option Dispute) (db1 : Db)
          → update_dispute_status env input.dispute_id current.status_code input.to_status
              (closes_at db)
              db
            ≡ returned row db1
          → (or_throw row concurrent_modification >>= record_event current n) db1 ≡ returned u db'
          → (u ≡ moved db current)
            × (event_violation
                  (with_moved db current)
                  (event_row env (with_moved db current) (change_event current n))
                ≡ none)
            × (db'
                ≡ add_event
                    (event_row env (with_moved db current) (change_event current n))
                    (draw_event (with_moved db current)))
      from_row none db1 e h = cc
      from_row (some d) db1 e h =
          let (old, f, ud, after, exists) =
            update_dispute_status-eq-some env input.dispute_id current.status_code input.to_status
              (closes_at db) d db db1 e in
          let same : old ≡ current =
            some-injective _ _
              (sym f ∙ find-is_expected input.dispute_id db.disputes current found) in
          let (ur, v, s) =
            record_event-eq-returned current n d u (with_moved db current) db' (rw after at h) in
          (ur ∙ ud ∙ ap (moved db) same, v, s)

  module _ (db : Db) (u : Dispute) (db' : Db) where
    change_locked-eq-returned :
        (current : Dispute)
        → find (has_id input.dispute_id) db.disputes ≡ some current
        → change_locked env input current db ≡ returned u db'
        → IsChanged db u db'
    unfolding change_locked list_status_transitions
    change_locked-eq-returned current f h = checked _ refl h
      where
        checked :
            (r : Result Transition)
            → assert_transition db.transitions
                (move_of input current)
                (count_evidence input.dispute_id db)
              ≡ r
            → (lift r >> write_change env input current (count_evidence input.dispute_id db)) db
              ≡ returned u db'
            → IsChanged db u db'
        checked (err x) e h = cc
        checked (ok t) e h =
            let (allowed, evidence) = assert_transition-eq-ok _ _ _ t e in
            let (result, recorded, state) =
              write_change-eq-returned current (count_evidence input.dispute_id db) u db db' f h in
            record {
              current = current;
              found = f;
              row = t;
              allowed = allowed;
              evidence = evidence;
              result = result;
              recorded = recorded;
              state = state;
            }

    change_body-eq-returned : change_body env input db ≡ returned u db' → IsChanged db u db'
    unfolding change_body lock_dispute_for_update
    change_body-eq-returned h = locked (find (has_id input.dispute_id) db.disputes) refl h
      where
        locked :
            (o : Option Dispute)
            → find (has_id input.dispute_id) db.disputes ≡ o
            → (or_throw o (dispute_not_found input.dispute_id) >>= change_locked env input) db
              ≡ returned u db'
            → IsChanged db u db'
        locked none e h = cc
        locked (some current) e h = change_locked-eq-returned current e h

  -- A call of `changeStatus` that returns has found the dispute and a row of the table for the move,
  -- with the evidence that the row asks for; it returns the moved row, and the state differs from the
  -- one before by exactly that row and the one event that records the move.
  pub change_status-IsChanged :
      (db : Db) (u : Dispute) (db' : Db)
      → change_status env input db ≡ returned u db'
      → IsChanged db u db'
  unfolding change_status
  change_status-IsChanged db u db' h =
      change_body-eq-returned db u db'
        (with_transaction-eq-returned (change_body env input) db db' u h)

  -- A call of `changeStatus` that throws leaves every table as it was.
  pub change_status-eq-threw :
      (db : Db) (e : Thrown) (db' : Db)
      → change_status env input db ≡ threw e db'
      → SameTables db db'
  unfolding change_status
  change_status-eq-threw db e db' h = with_transaction-eq-threw (change_body env input) db db' e h
