-- ===== src/Tests/Seeding.antt =====
-- The script for the demo data on a database with the reference data that it needs: it ends well.
use chargeback_iq.Prelude.{String, false, [], ◌∷◌, ◌≡◌, refl, map, dec_text}
use chargeback_iq.Deadlines.{
  select_deadline_rule, select_from, is_candidate, score, compute_respond_by, respond_within,
}
use chargeback_iq.Lifecycle.{assert_transition, find_transition, check_evidence}
use chargeback_iq.Schema.{Db, Env, Dispute, ReasonCode}
use chargeback_iq.Tx.{with_transaction, rolled_back}
use chargeback_iq.Tx.Keeps.{state_of}
use chargeback_iq.Repositories.Disputes.{
  find_dispute_by_case_number, insert_dispute, append_event, dispute_violation, passes_checks,
  is_taken, has_parents, event_violation, event_passes_checks, event_has_parents, insert_evidence,
  evidence_violation, find_dispute_by_id, lock_dispute_for_update, count_evidence,
  update_dispute_status,
}
use chargeback_iq.Repositories.Reference.{
  list_deadline_rules, find_reason_code, list_status_transitions, list_statuses,
}
use chargeback_iq.Repositories.Transactions.{find_transaction_context}
use chargeback_iq.Repositories.Volumes.{
  upsert_monthly_volume, volume_violation, upsert_row, month_start,
}
use chargeback_iq.Services.DisputeService.{
  open_dispute, open_body, open_in, open_for, write_opened, change_status, change_body,
  change_locked, write_change,
}
use chargeback_iq.Services.Evidence.{add_evidence, add_body, write_evidence}
use chargeback_iq.Demo.Wipe.{
  wipe, wipe_body, in_scope, is_scoped, delete_deliveries, delete_events, delete_evidence,
  delete_disputes, delete_volumes, delete_payments, delete_merchants, delete_operators,
}
use chargeback_iq.Demo.Rows.{
  decimal, merchant_violation, create_merchant, operator_violation, create_operator,
  payment_violation, create_transaction, set_respond_by,
}
use chargeback_iq.Demo.Cases.{
  open_fresh, collect_each, fight_and_win, fight_and_lose, concede, let_expire, open_mastercard,
}
use chargeback_iq.Demo.Script.{fill_month, fill_months, create_cases, create_demo, run, exit_code}
use chargeback_iq.Demo.Script.Order.{run-IsInOrder}
use chargeback_iq.Audit.Runs.{IsInOrder}
use chargeback_iq.Tests.Disputes.{empty_db-IsInOrder}
use chargeback_iq.Tests.World.{env, empty_db}
use chargeback_iq.Tests.Programmes.{even}

abbrev reason : (network_code code : String) → ReasonCode
reason network_code code = record {
  id = code;
  network_code = network_code;
  code = code;
  title = code;
  category_code = "CONSUMER_DISPUTE";
  workflow = "COLLABORATION";
  counts_as_fraud = false;
}

abbrev reference_db : Db
reference_db = record empty_db {
  merchants = [];
  payments = [];
  processors = "STRIPE" ∷ "CHECKOUT_COM" ∷ [];
  reason_codes =
      reason "VISA" "10.4"
      ∷ reason "VISA" "13.1"
      ∷ reason "VISA" "13.3"
      ∷ reason "VISA" "12.6"
      ∷ reason "VISA" "13.6"
      ∷ reason "VISA" "13.2"
      ∷ reason "MASTERCARD" "4837"
      ∷ reason "MASTERCARD" "4853"
      ∷ reason "MASTERCARD" "4855"
      ∷ [];
  evidence_kinds =
      record { code = "AVS_RESPONSE"; name = ""; description = "" }
      ∷ record { code = "CVV_RESPONSE"; name = ""; description = "" }
      ∷ record { code = "THREE_DS_RECORD"; name = ""; description = "" }
      ∷ record { code = "PRIOR_TRANSACTION_HISTORY"; name = ""; description = "" }
      ∷ record { code = "PROOF_OF_SHIPPING"; name = ""; description = "" }
      ∷ [];
}

abbrev seed_env : Env
seed_env = record env { now = 10_000_000_000; db_now = 10_000_000_001; random_uuid = decimal }

ends_well : exit_code (run even (λ s. s) seed_env 10_000_000_000 reference_db) ≡ 0
unfolding run wipe wipe_body in_scope is_scoped delete_deliveries delete_events delete_evidence
    delete_disputes delete_volumes delete_payments delete_merchants delete_operators
    merchant_violation create_merchant operator_violation create_operator payment_violation
    create_transaction set_respond_by open_fresh collect_each fight_and_win fight_and_lose concede
    let_expire open_mastercard fill_month fill_months create_cases create_demo open_dispute
    open_body open_in open_for write_opened change_status change_body change_locked write_change
    add_evidence add_body write_evidence find_dispute_by_case_number insert_dispute append_event
    dispute_violation passes_checks is_taken has_parents event_violation event_passes_checks
    event_has_parents insert_evidence evidence_violation find_dispute_by_id lock_dispute_for_update
    count_evidence update_dispute_status list_deadline_rules find_reason_code
    list_status_transitions list_statuses find_transaction_context upsert_monthly_volume
    volume_violation upsert_row month_start with_transaction rolled_back select_deadline_rule
    select_from is_candidate score compute_respond_by respond_within assert_transition
    find_transition check_evidence even dec_text
ends_well = refl

-- The statuses of the cases that it leaves, the newest first.
cases_left :
    map
      (λ (d : Dispute). d.status_code)
      (state_of (run even (λ s. s) seed_env 10_000_000_000 reference_db)).disputes
    ≡ "CHARGEBACK_RECEIVED" ∷ "CHARGEBACK_RECEIVED" ∷ "CHARGEBACK_RECEIVED" ∷ "EXPIRED" ∷ "ACCEPTED"
      ∷ "LOST" ∷ "WON" ∷ "CHARGEBACK_RECEIVED" ∷ "CHARGEBACK_RECEIVED" ∷ "CHARGEBACK_RECEIVED"
      ∷ "CHARGEBACK_RECEIVED" ∷ []
unfolding run wipe wipe_body in_scope is_scoped delete_deliveries delete_events delete_evidence
    delete_disputes delete_volumes delete_payments delete_merchants delete_operators
    merchant_violation create_merchant operator_violation create_operator payment_violation
    create_transaction set_respond_by open_fresh collect_each fight_and_win fight_and_lose concede
    let_expire open_mastercard fill_month fill_months create_cases create_demo open_dispute
    open_body open_in open_for write_opened change_status change_body change_locked write_change
    add_evidence add_body write_evidence find_dispute_by_case_number insert_dispute append_event
    dispute_violation passes_checks is_taken has_parents event_violation event_passes_checks
    event_has_parents insert_evidence evidence_violation find_dispute_by_id lock_dispute_for_update
    count_evidence update_dispute_status list_deadline_rules find_reason_code
    list_status_transitions list_statuses find_transaction_context upsert_monthly_volume
    volume_violation upsert_row month_start with_transaction rolled_back select_deadline_rule
    select_from is_candidate score compute_respond_by respond_within assert_transition
    find_transition check_evidence even dec_text
cases_left = refl

-- A second run replaces the first.
ends_again :
    exit_code (
      run even
        (λ s. s)
        seed_env
        10_000_000_000
        (state_of (run even (λ s. s) seed_env 10_000_000_000 reference_db)))
    ≡ 0
unfolding run wipe wipe_body in_scope is_scoped delete_deliveries delete_events delete_evidence
    delete_disputes delete_volumes delete_payments delete_merchants delete_operators
    merchant_violation create_merchant operator_violation create_operator payment_violation
    create_transaction set_respond_by open_fresh collect_each fight_and_win fight_and_lose concede
    let_expire open_mastercard fill_month fill_months create_cases create_demo open_dispute
    open_body open_in open_for write_opened change_status change_body change_locked write_change
    add_evidence add_body write_evidence find_dispute_by_case_number insert_dispute append_event
    dispute_violation passes_checks is_taken has_parents event_violation event_passes_checks
    event_has_parents insert_evidence evidence_violation find_dispute_by_id lock_dispute_for_update
    count_evidence update_dispute_status list_deadline_rules find_reason_code
    list_status_transitions list_statuses find_transaction_context upsert_monthly_volume
    volume_violation upsert_row month_start with_transaction rolled_back select_deadline_rule
    select_from is_candidate score compute_respond_by respond_within assert_transition
    find_transition check_evidence even dec_text
ends_again = refl

reference_db-IsInOrder : IsInOrder reference_db
reference_db-IsInOrder = record {
  sound = record {
    no_exit = empty_db-IsInOrder.sound.no_exit;
    opens = empty_db-IsInOrder.sound.opens;
  };
  audited = record { trailed = λ d i. elim i [ ]; legal = tt; closed = λ d i. elim i [ ] };
}

run-IsInOrder_example :
    IsInOrder (state_of (run even (λ s. s) seed_env 10_000_000_000 reference_db))
run-IsInOrder_example =
    run-IsInOrder even (λ s. s) seed_env 10_000_000_000 reference_db reference_db-IsInOrder
