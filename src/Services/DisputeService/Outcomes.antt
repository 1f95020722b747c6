-- ===== src/Services/DisputeService/Outcomes.antt =====
-- How a call of `changeStatus` ends.
use chargeback_iq.Prelude.{ℕ, String, none, some, true, ◌≡◌, refl, sym, ◌∙◌, arith, find, any}
use chargeback_iq.Errors.{Thrown, app, database, ok, err}
use chargeback_iq.Lifecycle.{Transition, assert_transition}
use chargeback_iq.Schema.{Db, Env, Dispute}
use chargeback_iq.Tx.{Outcome, returned, threw, with_transaction, rolled_back}
use chargeback_iq.Tx.Laws.{SameTables}
use chargeback_iq.Repositories.Reference.{list_status_transitions, list_statuses}
use chargeback_iq.Repositories.Disputes.{
  has_id, has_code, event_row, event_violation, update_dispute_status, append_event,
  lock_dispute_for_update, count_evidence, NewEvent, draw_event, add_event,
}
use chargeback_iq.Repositories.Disputes.Laws.{find-is_expected, event_violation_operator}
use chargeback_iq.Services.DisputeService.{
  ChangeInput, move_of, write_change, change_locked, change_body, change_status, dispute_not_found,
}
use chargeback_iq.Services.DisputeService.ChangeStatus.{
  change_status-IsChanged, change_status-eq-threw, with_moved, change_event, moved, after_change,
  closes_at,
}

module _ (env : Env) (input : ChangeInput) (db : Db) where
  update_returns :
      (current : Dispute)
      → find (has_id input.dispute_id) db.disputes ≡ some current
      → any (has_code input.to_status) db.statuses ≡ true
      → update_dispute_status env input.dispute_id current.status_code input.to_status
          (closes_at env input db)
          db
        ≡ returned (some (moved env input db current)) (with_moved env input db current)
  unfolding update_dispute_status
  update_returns current f e = rw (find-is_expected input.dispute_id db.disputes current f, e) refl

  append_returns :
      (e : NewEvent) (s : Db)
      → event_violation s (event_row env s e) ≡ none
      → append_event env e s
        ≡ returned (event_row env s e) (add_event (event_row env s e) (draw_event s))
  unfolding append_event
  append_returns e s h = rw h refl

  append_throws :
      (e : NewEvent) (s : Db) (code : String)
      → event_violation s (event_row env s e) ≡ some code
      → append_event env e s ≡ threw (database code) (draw_event s)
  unfolding append_event
  append_throws e s code h = rw h refl

  module _ (current : Dispute)
      (found : find (has_id input.dispute_id) db.disputes ≡ some current) where
    write_change_returns :
        (n : ℕ)
        → any (has_code input.to_status) db.statuses ≡ true
        → event_violation
            (with_moved env input db current)
            (event_row env (with_moved env input db current) (change_event env input current n))
          ≡ none
        → write_change env input current n db
          ≡ returned (moved env input db current) (
              add_event
                (event_row env (with_moved env input db current) (change_event env input current n))
                (draw_event (with_moved env input db current)))
    unfolding write_change list_statuses
    write_change_returns n e v = ground (
      arith,
      update_returns current found e,
      append_returns (change_event env input current n) (with_moved env input db current) v,
    )

    -- The move is refused by the check: its error is thrown and the state is that before the call.
    change_refused :
        (x : Thrown)
        → assert_transition db.transitions
            (move_of input current)
            (count_evidence input.dispute_id db)
          ≡ err x
        → change_status env input db ≡ threw x db
    unfolding change_status change_body change_locked with_transaction rolled_back
        lock_dispute_for_update list_status_transitions
    change_refused x e = rw (found, e) refl

    -- A move that the check allows is made, where the event meets the constraints.
    pub change_allowed :
        (t : Transition)
        → assert_transition db.transitions
            (move_of input current)
            (count_evidence input.dispute_id db)
          ≡ ok t
        → any (has_code input.to_status) db.statuses ≡ true
        → event_violation (with_moved env input db current) (
            event_row env
              (with_moved env input db current)
              (change_event env input current (count_evidence input.dispute_id db)))
          ≡ none
        → change_status env input db
          ≡ returned (moved env input db current) (after_change env input db current)
    unfolding change_status change_body change_locked with_transaction lock_dispute_for_update
        list_status_transitions
    change_allowed t e s v =
        ground (arith, write_change_returns (count_evidence input.dispute_id db) s v)

    -- A move whose event is refused is undone.
    pub change_unrecorded :
        (t : Transition) (code : String)
        → assert_transition db.transitions
            (move_of input current)
            (count_evidence input.dispute_id db)
          ≡ ok t
        → any (has_code input.to_status) db.statuses ≡ true
        → event_violation (with_moved env input db current) (
            event_row env
              (with_moved env input db current)
              (change_event env input current (count_evidence input.dispute_id db)))
          ≡ some code
        → change_status env input db
          ≡ threw (database code) (rolled_back db (draw_event (with_moved env input db current)))
    unfolding change_status change_body change_locked with_transaction lock_dispute_for_update
        list_status_transitions write_change list_statuses
    change_unrecorded t code e s v = ground (
      arith,
      update_returns current found s,
      append_throws (change_event env input current (count_evidence input.dispute_id db))
          (with_moved env input db current) code v,
    )

  change_missing :
      find (has_id input.dispute_id) db.disputes ≡ none
      → change_status env input db ≡ threw (app (dispute_not_found input.dispute_id)) db
  unfolding change_status change_body with_transaction rolled_back lock_dispute_for_update
  change_missing h = rw h refl

-- How `changeStatus` ends. A dispute that is not there throws NotFoundError; a move that the check
-- refuses throws the check's error; neither changes anything. A move that the check allows, to a
-- status of the table and with an event that meets the constraints of the log, returns the moved row,
-- in the state with that row and that event.
pub change_status_outcomes :
    (env : Env) (input : ChangeInput) (db : Db)
    → (find (has_id input.dispute_id) db.disputes ≡ none
        → change_status env input db ≡ threw (app (dispute_not_found input.dispute_id)) db)
      × ((current : Dispute)
          → find (has_id input.dispute_id) db.disputes ≡ some current
          → ((x : Thrown)
              → assert_transition db.transitions
                  (move_of input current)
                  (count_evidence input.dispute_id db)
                ≡ err x
              → change_status env input db ≡ threw x db)
            × ((t : Transition)
                → assert_transition db.transitions
                    (move_of input current)
                    (count_evidence input.dispute_id db)
                  ≡ ok t
                → any (has_code input.to_status) db.statuses ≡ true
                → event_violation (with_moved env input db current) (
                    event_row env
                      (with_moved env input db current)
                      (change_event env input current (count_evidence input.dispute_id db)))
                  ≡ none
                → change_status env input db
                  ≡ returned (moved env input db current) (after_change env input db current)))
change_status_outcomes env input db = (
  change_missing env input db,
  λ current found.
      (change_refused env input db current found, change_allowed env input db current found),
)

-- A call of `changeStatus` for an operator that names no operator never returns, although its move may
-- be allowed: it throws, and every table is as it was.
pub change_status_operator :
    (env : Env) (input : ChangeInput) (db : Db)
    → input.triggered_by ≡ "OPERATOR"
    → input.actor_id ≡ none
    → (e : Thrown) × (db' : Db) × (change_status env input db ≡ threw e db') × SameTables db db'
change_status_operator env input db by unnamed = ends (change_status env input db) refl
  where
    ends :
        (o : Outcome Dispute)
        → change_status env input db ≡ o
        → (e : Thrown) × (db' : Db) × (change_status env input db ≡ threw e db') × SameTables db db'
    ends (threw e db') q = (e, db', q, change_status-eq-threw env input db e db' q)
    ends (returned u db') q =
        let c = change_status-IsChanged env input db u db' q in
        absurd (cc (sym c.recorded ∙ event_violation_operator _ _ by unnamed))
