-- ===== src/Tests/Disputes.antt =====
-- A case that is opened, moved and given evidence.
use chargeback_iq.Prelude.{
  suc, ◌+◌, none, some, true, false, not, ◌≡◌, refl, dec_text, arith, all, all-In, In, length,
}
use chargeback_iq.Errors.{Thrown, app, evidence_required_error}
use chargeback_iq.Lifecycle.{find_transition, assert_transition, check_evidence}
use chargeback_iq.Deadlines.{
  select_deadline_rule, select_from, is_candidate, score, compute_respond_by, respond_within,
}
use chargeback_iq.Schema.{Db, Dispute, Evidence}
use chargeback_iq.Tx.{returned, threw, with_transaction, rolled_back}
use chargeback_iq.Tx.Laws.{SameTables, with_transaction-eq-threw}
use chargeback_iq.Tx.Keeps.{state_of}
use chargeback_iq.Repositories.Disputes.{
  find_dispute_by_case_number, find_dispute_by_id, insert_dispute, append_event, dispute_violation,
  passes_checks, is_taken, has_parents, event_violation, event_passes_checks, event_has_parents,
  insert_evidence, evidence_violation, count_evidence, lock_dispute_for_update,
  update_dispute_status,
}
use chargeback_iq.Repositories.Disputes.Queue.{list_overdue_open_disputes, is_overdue}
use chargeback_iq.Repositories.Reference.{
  list_deadline_rules, find_reason_code, list_status_transitions, list_statuses,
}
use chargeback_iq.Repositories.Transactions.{find_transaction_context}
use chargeback_iq.Services.DisputeService.{
  open_dispute, open_body, open_in, open_for, write_opened, ChangeInput, change_status, change_body,
  change_locked, write_change,
}
use chargeback_iq.Services.DisputeService.ChangeStatus.{IsChanged, change_status-IsChanged}
use chargeback_iq.Services.DisputeService.OpenDispute.{IsOpened, open_dispute-IsOpened}
use chargeback_iq.Services.DisputeService.Outcomes.{change_status_outcomes, change_status_operator}
use chargeback_iq.Services.Evidence.{add_evidence, add_body, write_evidence}
use chargeback_iq.Services.Evidence.Laws.{IsAdded, add_evidence-IsAdded, add_evidence_counts}
use chargeback_iq.Services.Sweep.{SweepResult, expire_overdue_disputes}
use chargeback_iq.Services.Sweep.Laws.{HasUniqueIds, expire_overdue_returns}
use chargeback_iq.Audit.{is_final}
use chargeback_iq.Services.Calls.{Reach, here, next, opening as opening_step, change as change_step}
use chargeback_iq.Audit.Runs.{IsInOrder, Reach-IsInOrder}
use chargeback_iq.Tests.World.{
  env, empty_db, opening, opened, opened_db, review, reviewed, reviewed_db, receipt,
}

opens : open_dispute env opening empty_db ≡ returned opened opened_db
unfolding open_dispute open_body open_in open_for write_opened with_transaction
    find_dispute_by_case_number insert_dispute append_event dispute_violation passes_checks is_taken
    has_parents event_violation event_passes_checks event_has_parents list_deadline_rules
    find_reason_code find_transaction_context select_deadline_rule select_from is_candidate score
    compute_respond_by respond_within dec_text
opens = refl

moves : change_status env review opened_db ≡ returned reviewed reviewed_db
unfolding open_dispute open_body open_in open_for write_opened with_transaction
    find_dispute_by_case_number insert_dispute append_event dispute_violation passes_checks is_taken
    has_parents event_violation event_passes_checks event_has_parents list_deadline_rules
    find_reason_code find_transaction_context select_deadline_rule select_from is_candidate score
    compute_respond_by respond_within dec_text change_status change_body change_locked write_change
    lock_dispute_for_update list_status_transitions list_statuses count_evidence find_transition
    assert_transition check_evidence update_dispute_status
moves = refl

abbrev item : Evidence
item = record {
  id = "u2";
  dispute_id = "u0";
  kind_code = "RECEIPT";
  description = none;
  file_ref = none;
  collected_by = some "op1";
  created_at = 5_001;
}

abbrev given_db : Db
given_db = state_of (add_evidence env receipt opened_db)

gives : add_evidence env receipt opened_db ≡ returned item given_db
unfolding open_dispute open_body open_in open_for write_opened with_transaction
    find_dispute_by_case_number insert_dispute append_event dispute_violation passes_checks is_taken
    has_parents event_violation event_passes_checks event_has_parents list_deadline_rules
    find_reason_code find_transaction_context select_deadline_rule select_from is_candidate score
    compute_respond_by respond_within dec_text add_evidence add_body write_evidence
    find_dispute_by_id insert_evidence evidence_violation
gives = refl

nothing_leaves_an_end :
    all (λ t. not (is_final empty_db.statuses t.from_status)) empty_db.transitions ≡ true
unfolding dec_text
nothing_leaves_an_end = refl

opens_no_end : is_final empty_db.statuses "CHARGEBACK_RECEIVED" ≡ false
unfolding dec_text
opens_no_end = refl

pub empty_db-IsInOrder : IsInOrder empty_db
empty_db-IsInOrder = record {
  sound = record {
    no_exit = λ t i. ground (
      arith,
      all-In (λ t. not (is_final empty_db.statuses t.from_status)) empty_db.transitions
          nothing_leaves_an_end t i,
    );
    opens = opens_no_end;
  };
  audited = record { trailed = λ d i. elim i [ ]; legal = tt; closed = λ d i. elim i [ ] };
}

-- Opening a case and taking it up for review.
two_calls : Reach empty_db reviewed_db
two_calls = next (next here (opening_step env opening refl)) (change_step env review refl)

Reach-IsInOrder_example : IsInOrder reviewed_db
Reach-IsInOrder_example = Reach-IsInOrder two_calls empty_db-IsInOrder

open_dispute-IsOpened_example : IsOpened env opening empty_db opened opened_db
open_dispute-IsOpened_example = open_dispute-IsOpened env opening empty_db opened opened_db opens

change_status-IsChanged_example : IsChanged env review opened_db reviewed reviewed_db
change_status-IsChanged_example =
    change_status-IsChanged env review opened_db reviewed reviewed_db moves

-- Contesting a case with no evidence on file.
abbrev contest : ChangeInput
contest = record review { to_status = "REPRESENTED" }

change_status_outcomes_example :
    change_status env contest reviewed_db
    ≡ threw (app (evidence_required_error "UNDER_REVIEW" "REPRESENTED")) reviewed_db
unfolding open_dispute open_body open_in open_for write_opened with_transaction
    find_dispute_by_case_number insert_dispute append_event dispute_violation passes_checks is_taken
    has_parents event_violation event_passes_checks event_has_parents list_deadline_rules
    find_reason_code find_transaction_context select_deadline_rule select_from is_candidate score
    compute_respond_by respond_within dec_text change_status change_body change_locked write_change
    lock_dispute_for_update list_status_transitions list_statuses count_evidence find_transition
    assert_transition check_evidence update_dispute_status
change_status_outcomes_example =
    ((change_status_outcomes env contest reviewed_db).1 reviewed refl).0
      (app (evidence_required_error "UNDER_REVIEW" "REPRESENTED")) refl

-- A review that names no operator.
abbrev anonymous : ChangeInput
anonymous = record review { actor_id = none }

change_status_operator_test :
    (e : Thrown) × (db' : Db) × (change_status env anonymous opened_db ≡ threw e db')
    × SameTables opened_db db'
change_status_operator_test = change_status_operator env anonymous opened_db refl refl

add_evidence-IsAdded_test : IsAdded env receipt opened_db item given_db
add_evidence-IsAdded_test = add_evidence-IsAdded env receipt opened_db item given_db gives

add_evidence_counts_test : count_evidence "u0" given_db ≡ suc (count_evidence "u0" opened_db)
unfolding dec_text
add_evidence_counts_test = add_evidence_counts env receipt opened_db item given_db "u0" gives

anonymous_throws :
    change_body env anonymous opened_db
    ≡ threw (Thrown.database "23514") (state_of (change_body env anonymous opened_db))
unfolding open_dispute open_body open_in open_for write_opened with_transaction
    find_dispute_by_case_number insert_dispute append_event dispute_violation passes_checks is_taken
    has_parents event_violation event_passes_checks event_has_parents list_deadline_rules
    find_reason_code find_transaction_context select_deadline_rule select_from is_candidate score
    compute_respond_by respond_within dec_text change_status change_body change_locked write_change
    lock_dispute_for_update list_status_transitions list_statuses count_evidence find_transition
    assert_transition check_evidence update_dispute_status
anonymous_throws = refl

-- The update of the dispute stands when the event is refused, and is rolled back.
with_transaction-eq-threw_test :
    SameTables opened_db (rolled_back opened_db (state_of (change_body env anonymous opened_db)))
unfolding with_transaction
with_transaction-eq-threw_test =
    with_transaction-eq-threw (change_body env anonymous) opened_db
      (rolled_back opened_db (state_of (change_body env anonymous opened_db)))
      (Thrown.database "23514") (rw anonymous_throws refl)

one_dispute-HasUniqueIds : HasUniqueIds opened_db
unfolding open_dispute open_body open_in open_for write_opened with_transaction
    find_dispute_by_case_number insert_dispute append_event dispute_violation passes_checks is_taken
    has_parents event_violation event_passes_checks event_has_parents list_deadline_rules
    find_reason_code find_transaction_context select_deadline_rule select_from is_candidate score
    compute_respond_by respond_within dec_text
one_dispute-HasUniqueIds d e i j same = ground (arith, i, j)

-- A sweep at the deadline.
expire_overdue_returns_example :
    (r : SweepResult) × (db' : Db) × (expire_overdue_disputes env 777_605_000 opened_db
      ≡ returned r db')
    × (r.checked ≡ length r.expired + length r.skipped)
    × (r.checked ≡ length (list_overdue_open_disputes 777_605_000 opened_db))
    × ((d : Dispute)
        → In d opened_db.disputes
        → is_overdue 777_605_000 d ≡ false
        → In d db'.disputes)
expire_overdue_returns_example =
    expire_overdue_returns env 777_605_000 opened_db one_dispute-HasUniqueIds
