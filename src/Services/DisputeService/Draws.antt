-- ===== src/Services/DisputeService/Draws.antt =====
-- A call of `changeStatus` that throws has drawn ids, and gives none back.
use chargeback_iq.Prelude.{ℕ, ◌≤◌, Option, none, some, find, ◌≡◌, arith}
use chargeback_iq.Errors.{Thrown}
use chargeback_iq.Schema.{Db, Env, Dispute}
use chargeback_iq.Tx.{Outcome, returned, threw, with_transaction, rolled_back, end_transaction}
use chargeback_iq.Tx.Keeps.{
  Keeps, state_of, Keeps-bind, Keeps-pure, Keeps-reads, Keeps-lift, Keeps-or_throw-bind,
}
use chargeback_iq.Repositories.Disputes.{
  update_dispute_status, updated_row, append_event, NewEvent, lock_dispute_for_update,
  count_evidence, has_code,
}
use chargeback_iq.Repositories.Reference.{list_status_transitions, list_statuses}
use chargeback_iq.Services.DisputeService.{
  ChangeInput, write_change, change_locked, change_body, change_status, dispute_not_found,
  concurrent_modification, closing_time, move_of,
}
use chargeback_iq.Services.DisputeService.ChangeStatus.{change_event}
use chargeback_iq.Lifecycle.{assert_transition}

-- At least `n` ids are drawn.
abbrev HasDrawn : ℕ → Db → Type 0
HasDrawn n db = n ≤ db.drawn

module _ (env : Env) (n : ℕ) where
  append_drawn : (e : NewEvent) → Keeps (HasDrawn n) (append_event env e)
  unfolding append_event
  append_drawn e = record { at = λ db p. ground arith }

  update_drawn :
      (id from to : _) (closed_at : Option ℕ)
      → Keeps (HasDrawn n) (update_dispute_status env id from to closed_at)
  unfolding update_dispute_status
  update_drawn id from to closed_at = record { at = λ db p. of_row _ db p }
    where
      of_row :
          (o : Option Dispute) (db : Db)
          → HasDrawn n db
          → HasDrawn n (state_of (updated_row env id from to closed_at o db))
      of_row none db p = p
      of_row (some d) db p = ground arith

  write_drawn :
      (input : ChangeInput) (d : Dispute) (k : ℕ) → Keeps (HasDrawn n) (write_change env input d k)
  unfolding write_change list_statuses
  write_drawn input d k = Keeps-bind (HasDrawn n) _ _ (Keeps-reads _ list_statuses) (λ ss.
      Keeps-bind (HasDrawn n) _ _
        (update_drawn input.dispute_id d.status_code input.to_status
          (closing_time env.now (find (has_code input.to_status) ss)))
        (λ row. Keeps-or_throw-bind (HasDrawn n) row concurrent_modification _ (λ u.
          Keeps-bind (HasDrawn n) _ _ (append_drawn (change_event env input d k))
            (λ e. Keeps-pure _ u))))

  body_drawn : (input : ChangeInput) → Keeps (HasDrawn n) (change_body env input)
  unfolding change_body change_locked
  body_drawn input =
      Keeps-bind (HasDrawn n) _ _ (Keeps-reads _ (lock_dispute_for_update input.dispute_id))
        (λ locked.
          Keeps-or_throw-bind (HasDrawn n) locked (dispute_not_found input.dispute_id) _ (λ d.
            Keeps-bind (HasDrawn n) _ _ (Keeps-reads _ list_status_transitions) (λ ts.
              Keeps-bind (HasDrawn n) _ _ (Keeps-reads _ (count_evidence input.dispute_id)) (λ k.
                Keeps-bind (HasDrawn n) _ _
                  (Keeps-lift _ (assert_transition ts (move_of input d) k))
                  (λ t. write_drawn input d k)))))

-- The state after a call that threw: the tables as before, and no fewer ids drawn.
pub change_status_drawn :
    (env : Env) (input : ChangeInput) (db : Db) (x : Thrown) (db' : Db)
    → change_status env input db ≡ threw x db'
    → (after : Db) × (db' ≡ rolled_back db after) × (db.drawn ≤ after.drawn)
unfolding change_status with_transaction
change_status_drawn env input db x db' h =
    of_body (change_body env input db) ((body_drawn env db.drawn input).at db (omega arith)) h
  where
    of_body :
        (o : Outcome Dispute)
        → db.drawn ≤ (state_of o).drawn
        → end_transaction db o ≡ threw x db'
        → (after : Db) × (db' ≡ rolled_back db after) × (db.drawn ≤ after.drawn)
    of_body (returned u after) k h = cc
    of_body (threw y after) k h = (after, cc, k)
