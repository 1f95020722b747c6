-- ===== src/Tests/Interleavings.antt =====
-- Two workers that move one case, and one that files evidence while the case is being closed.
use chargeback_iq.Prelude.{ℕ, zero, suc, some, [], ◌∷◌, ◌≡◌, ◌≢◌, ◌↔◌, In, refl, dec_text, length}
use chargeback_iq.Schema.{Db, Dispute}
use chargeback_iq.Tx.{with_transaction}
use chargeback_iq.Tx.Keeps.{state_of}
use chargeback_iq.Repositories.Disputes.{
  lock_dispute_for_update, insert_dispute, append_event, dispute_violation, passes_checks, is_taken,
  has_parents, event_violation, event_passes_checks, event_has_parents, insert_evidence,
  evidence_violation, find_dispute_by_case_number,
}
use chargeback_iq.Services.DisputeService.{change_status, change_locked, write_change}
use chargeback_iq.Repositories.Reference.{list_deadline_rules, find_reason_code}
use chargeback_iq.Repositories.Transactions.{find_transaction_context}
use chargeback_iq.Deadlines.{
  select_deadline_rule, select_from, is_candidate, score, compute_respond_by, respond_within,
}
use chargeback_iq.Services.Calls.{opening as opening_step}
use chargeback_iq.Services.DisputeService.{open_dispute, open_body, open_in, open_for, write_opened}
use chargeback_iq.Services.Evidence.{write_evidence}
use chargeback_iq.Services.Interleaved.{
  Job, changing, filing, System, lock, call, begin, Reachable, start, later, update, locked,
}
use chargeback_iq.Services.Interleaved.Ends.{
  IsConflict, write_change-IsConflict, Reachable-change_status,
}
use chargeback_iq.Audit.Runs.{IsInOrder}
use chargeback_iq.Audit.Interleaved.{Reachable-IsInOrder}
use chargeback_iq.Tests.World.{env, empty_db, opening, opened_db, review, first_dispute, receipt}
use chargeback_iq.Tests.Disputes.{empty_db-IsInOrder}

-- Worker 0 takes the case up for review, every other one files a receipt.
abbrev jobs : ℕ → Job
jobs zero = changing review
jobs (suc i) = filing receipt

-- The case has been opened, and worker 0 has locked it.
abbrev opened_system : System
opened_system = record { db = opened_db; pc = (begin empty_db).pc }

abbrev at_lock : System
at_lock = record { db = opened_db; pc = update opened_system.pc 0 (locked first_dispute) }

finds : lock_dispute_for_update "u0" opened_db ≡ some first_dispute
unfolding open_dispute open_body open_in open_for write_opened with_transaction
    find_dispute_by_case_number insert_dispute append_event dispute_violation passes_checks is_taken
    has_parents event_violation event_passes_checks event_has_parents list_deadline_rules
    find_reason_code find_transaction_context select_deadline_rule select_from is_candidate score
    compute_respond_by respond_within dec_text lock_dispute_for_update
finds = refl

reached : Reachable env jobs empty_db at_lock
reached =
    later (later start (call (opening_step env opening refl) (λ j c e. cc)))
      (lock 0 review first_dispute refl refl (λ j c e. cc) finds)

Reachable-change_status_example :
    (with_transaction (change_locked env review first_dispute) opened_db
      ≡ change_status env review opened_db)
    × ¬ IsConflict (with_transaction (change_locked env review first_dispute) opened_db)
Reachable-change_status_example =
    Reachable-change_status env jobs empty_db at_lock reached 0 review first_dispute refl refl

Reachable-IsInOrder_example : IsInOrder opened_db
Reachable-IsInOrder_example = Reachable-IsInOrder env jobs reached empty_db-IsInOrder

-- A row that has been moved since it was read.
abbrev moved_db : Db
moved_db = record empty_db { disputes = record first_dispute { status_code = "UNDER_REVIEW" } ∷ [] }

write_change-IsConflict_example : IsConflict (write_change env review first_dispute 0 moved_db) ↔ (
    (d : Dispute)
    → In d moved_db.disputes
    → d.id ≡ review.dispute_id
    → d.status_code ≢ first_dispute.status_code)
write_change-IsConflict_example = write_change-IsConflict env review first_dispute 0 moved_db

-- Evidence is filed on a case that was closed after its two guards had passed.
abbrev closed_db : Db
closed_db = record empty_db {
  disputes = record first_dispute { status_code = "ACCEPTED"; closed_at = some 5_000 } ∷ [];
}

late_evidence :
    length (state_of (with_transaction (write_evidence env receipt) closed_db)).evidence ≡ 1
unfolding with_transaction write_evidence insert_evidence evidence_violation append_event
    event_violation event_passes_checks event_has_parents dec_text
late_evidence = refl
