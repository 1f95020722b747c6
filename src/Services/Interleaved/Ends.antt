-- ===== src/Services/Interleaved/Ends.antt =====
-- When `changeStatus` answers CONCURRENT_MODIFICATION, and that no interleaving leads there.
use chargeback_iq.Prelude.{
  ℕ, String, Option, none, some, Bool, true, false, List, ◌≡◌, ◌≢◌, ◌↔◌, refl, ap, subst, arith,
  inl, inr, find, In, if◌then◌else◌, Bool-cases, Option-cases, ◌==◌, ==_iff, ◌&&◌, ltb,
  find-eq-none, find-eq-none_of, dec_text,
}
use chargeback_iq.Errors.{
  app, AppError, invalid_transition_error, evidence_required_error, Result, ok, err,
}
use chargeback_iq.Lifecycle.{Transition, Move, assert_transition, find_transition, check_evidence}
use chargeback_iq.Schema.{Db, Env, Dispute}
use chargeback_iq.Tx.{
  M, Outcome, returned, threw, ◌>>=◌, ◌>>◌, or_throw, lift, pure, with_transaction, end_transaction,
  write_unless,
}
use chargeback_iq.Repositories.Reference.{list_statuses, list_status_transitions}
use chargeback_iq.Repositories.Disputes.{
  has_id, has_code, is_expected, with_status, update_dispute_status, updated_row, append_event,
  event_violation, event_row, NewEvent, count_evidence, status_violation, draw_event, add_event,
}
use chargeback_iq.Repositories.Disputes.Laws.{find-is_expected}
use chargeback_iq.Services.DisputeService.{
  ChangeInput, change_locked, change_status, write_change, concurrent_modification, closing_time,
  move_of,
}
use chargeback_iq.Services.DisputeService.ChangeStatus.{change_event}
use chargeback_iq.Services.Interleaved.{Job, changing, locked, System, Reachable}
use chargeback_iq.Services.Interleaved.Laws.{Reachable-HoldsLocks, commit_is_call}

-- The call ended with the answer that its row was changed meanwhile.
abbrev pub IsConflict : {A : Type 0} → Outcome A → Type 0
IsConflict o = (db : Db) × (o ≡ threw (app concurrent_modification) db)

module _ (env : Env) (input : ChangeInput) (current : Dispute) (n : ℕ) (db : Db) where
  -- A statement of the database throws no AppError.
  unless_conflict :
      {A B : Type 0} (v : Option String) (a : A) (after before : Db) (f : A → M B)
      → ((s : Db) → IsConflict (f a s) → ⊥)
      → IsConflict ((write_unless v a after >>= f) before)
      → ⊥
  unless_conflict none a after before f h c = h after c
  unless_conflict (some code) a after before f h (s, e) = cc

  recorded :
      (e : NewEvent) (u : Dispute) (s : Db) → IsConflict ((append_event env e >> pure u) s) → ⊥
  unfolding append_event
  recorded e u s =
      unless_conflict (event_violation s (event_row env s e)) (event_row env s e)
        (add_event (event_row env s e) (draw_event s)) (draw_event s) (λ r. pure u) (λ t (x, y). cc)

  abbrev closing : Option ℕ
  closing = closing_time env.now (find (has_code input.to_status) db.statuses)

  -- What follows the update.
  abbrev record_move : Option Dispute → M Dispute
  record_move row = or_throw row concurrent_modification >>= λ u.
      append_event env (change_event env input current n) >> pure u

  updated :
      (o : Option Dispute) (d : Dispute)
      → o ≡ some d
      → IsConflict (
          (updated_row env input.dispute_id current.status_code input.to_status closing o
              >>= record_move)
            db)
      → ⊥
  updated none d f c = cc
  updated (some x) d f c =
      unless_conflict (status_violation db input.to_status)
        (some (with_status env input.to_status closing x)) _ db record_move
        (recorded (change_event env input current n) (with_status env input.to_status closing x)) c

  not_updated :
      (o : Option Dispute)
      → o ≡ none
      → (updated_row env input.dispute_id current.status_code input.to_status closing o
            >>= record_move)
          db
        ≡ threw (app concurrent_modification) db
  not_updated none e = refl
  not_updated (some d) e = cc

  -- With a row that the update expects.
  expected_row :
      (d : Dispute)
      → find (is_expected input.dispute_id current.status_code) db.disputes ≡ some d
      → IsConflict (write_change env input current n db)
      → ⊥
  unfolding write_change list_statuses update_dispute_status
  expected_row d f c = updated _ d f c

  -- Without one.
  no_row :
      find (is_expected input.dispute_id current.status_code) db.disputes ≡ none
      → write_change env input current n db ≡ threw (app concurrent_modification) db
  unfolding write_change list_statuses update_dispute_status
  no_row f = not_updated _ f

  -- The writes of `changeStatus` answer CONCURRENT_MODIFICATION exactly where no row of the dispute is in
  -- the status that was read.
  pub write_change-IsConflict : IsConflict (write_change env input current n db) ↔ (
      (d : Dispute)
      → In d db.disputes
      → d.id ≡ input.dispute_id
      → d.status_code ≢ current.status_code)
  write_change-IsConflict = (
    (λ c.
        elim (Option-cases (find (is_expected input.dispute_id current.status_code) db.disputes)) [
          | inl e ↦ λ d i same status. cc (
            find-eq-none (is_expected input.dispute_id current.status_code) db.disputes e d i,
            expects d same status,
          )
          | inr (d, e) ↦ absurd (expected_row d e c)
        ]),
    λ h. (
      db,
      no_row (
          find-eq-none_of (is_expected input.dispute_id current.status_code) db.disputes (λ d i.
            elim (Bool-cases (is_expected input.dispute_id current.status_code d)) [
              | inl e ↦ absurd (h d i (expected_id d e) (expected_status d e))
              | inr e ↦ e
            ])),
    ),
  )
    where
      expects :
          (d : Dispute)
          → d.id ≡ input.dispute_id
          → d.status_code ≡ current.status_code
          → is_expected input.dispute_id current.status_code d ≡ true
      expects d p q = ground arith

      expected_id :
          (d : Dispute)
          → is_expected input.dispute_id current.status_code d ≡ true
          → d.id ≡ input.dispute_id
      expected_id d e = ground arith

      expected_status :
          (d : Dispute)
          → is_expected input.dispute_id current.status_code d ≡ true
          → d.status_code ≡ current.status_code
      expected_status d e = ground arith

other_name : (name : String) → (name == "AppError") ≡ false → name ≢ "AppError"
other_name name h e = cc ((==_iff name "AppError").1 e, h)

-- The check of a move throws errors of other names.
checked_name :
    (ts : List Transition) (m : Move) (n : ℕ) (x : AppError)
    → assert_transition ts m n ≡ err (app x)
    → x.name ≢ "AppError"
unfolding assert_transition check_evidence dec_text
checked_name ts m n x h = found (find_transition ts m) h
  where
    found :
        (o : Option Transition)
        → elim o [
          | none ↦ err (app (invalid_transition_error m.from m.to m.triggered_by))
          | some t ↦ check_evidence m n t
        ]
          ≡ err (app x)
        → x.name ≢ "AppError"
    found none e =
        let r : invalid_transition_error m.from m.to m.triggered_by ≡ x = cc in
        subst (λ (y : AppError). y.name ≢ "AppError") r (other_name "InvalidTransitionError" refl)
    found (some t) e = tested (t.requires_evidence && ltb n 1) e
      where
        tested :
            (b : Bool)
            → (if b then err (app (evidence_required_error m.from m.to)) else ok t) ≡ err (app x)
            → x.name ≢ "AppError"
        tested true e =
            let r : evidence_required_error m.from m.to ≡ x = cc in
            subst (λ (y : AppError). y.name ≢ "AppError") r
              (other_name "EvidenceRequiredError" refl)
        tested false e = cc

module _ (env : Env) (input : ChangeInput) (db : Db) where
  checked_move :
      (current : Dispute) (r : Result Transition)
      → find (has_id input.dispute_id) db.disputes ≡ some current
      → ((x : AppError) → r ≡ err (app x) → x.name ≢ "AppError")
      → IsConflict
          ((lift r >> write_change env input current (count_evidence input.dispute_id db)) db)
      → ⊥
  checked_move current (ok t) f k c =
      expected_row env input current (count_evidence input.dispute_id db) db current
        (find-is_expected input.dispute_id db.disputes current f) c
  checked_move current (err x) f k (s, e) =
      k concurrent_modification (let q : x ≡ app concurrent_modification = cc in ap err q) refl

  before_rollback : (o : Outcome Dispute) → IsConflict (end_transaction db o) → IsConflict o
  before_rollback (returned u s) (t, e) = cc
  before_rollback (threw x s) (t, e) =
      (s, (let q : x ≡ app concurrent_modification = cc in ap (λ y. threw y s) q))

  -- A worker that holds the lock of its row does not meet the answer.
  pub locked_move :
      (current : Dispute)
      → find (has_id input.dispute_id) db.disputes ≡ some current
      → IsConflict (with_transaction (change_locked env input current) db)
      → ⊥
  unfolding with_transaction change_locked list_status_transitions
  locked_move current f c =
      checked_move current
        (assert_transition db.transitions (move_of input current)
          (count_evidence input.dispute_id db))
        f (checked_name db.transitions (move_of input current) (count_evidence input.dispute_id db))
        (before_rollback _ c)

-- However the calls interleave, a worker that has read its row under the lock finds it as it was: the
-- rest of its transaction ends as `changeStatus` run as a whole, and not in CONCURRENT_MODIFICATION.
pub Reachable-change_status :
    (env : Env) (jobs : ℕ → Job) (db : Db) (s : System)
    → Reachable env jobs db s
    → (i : ℕ) (input : ChangeInput) (current : Dispute) → jobs i ≡ changing input
    → s.pc i ≡ locked current
    → (with_transaction (change_locked env input current) s.db ≡ change_status env input s.db)
      × ¬ IsConflict (with_transaction (change_locked env input current) s.db)
Reachable-change_status env jobs db s r i input current e q =
    let h = Reachable-HoldsLocks env jobs r in
    let found =
      subst (λ id. find (has_id id) s.db.disputes ≡ some current) (h.job i current input q e)
        (h.row i current q) in
    (commit_is_call env input current s.db found, locked_move env input s.db current found)
