-- ===== src/Tests/Runs.antt =====
-- A case that waits for its deadline, under ids that are all different, and runs of the service layer.
use Prim.Native.String.{◌++◌, len}
use text.Mathlib.TextPositions.{len-append}
use chargeback_iq.Prelude.{
  ℕ, zero, suc, ◌≤◌, String, none, false, [], ◌∷◌, ◌≡◌, ◌≢◌, refl, sym, ap, subst, inl, inr, arith,
  In, dec_text,
}
use chargeback_iq.Schema.{Db, Env, Dispute}
use chargeback_iq.Lifecycle.{find_transition, assert_transition, check_evidence}
use chargeback_iq.Deadlines.{
  select_deadline_rule, select_from, is_candidate, score, compute_respond_by, respond_within,
}
use chargeback_iq.Repositories.Reference.{
  list_deadline_rules, find_reason_code, list_status_transitions, list_statuses,
}
use chargeback_iq.Repositories.Transactions.{find_transaction_context}
use chargeback_iq.Services.DisputeService.{
  open_dispute, open_body, open_in, open_for, write_opened, change_status, change_body,
  change_locked, write_change,
}
use chargeback_iq.Tx.{returned, with_transaction}
use chargeback_iq.Tx.Keeps.{state_of}
use chargeback_iq.Repositories.Disputes.{
  count_evidence, find_dispute_by_case_number, insert_dispute, append_event, dispute_violation,
  passes_checks, is_taken, has_parents, event_violation, event_passes_checks, event_has_parents,
  lock_dispute_for_update, update_dispute_status,
}
use chargeback_iq.Services.Calls.{
  Reach, here, next, sweep, opening as opening_step, change as change_step,
}
use chargeback_iq.Services.Sweep.{SweepResult, expire_overdue_disputes}
use chargeback_iq.Services.Sweep.Laws.{HasUniqueIds}
use chargeback_iq.Services.Sweep.Fresh.{HasFreshIds, CanExpire}
use chargeback_iq.Services.Sweep.Rounds.{HasExpired}
use chargeback_iq.Services.Sweep.Liveness.{expire_overdue_expires}
use chargeback_iq.Seeds.Runs.{CaseRun, here as start, move}
use chargeback_iq.Audit.Cases.{HasRuns, Reach-won, Reach-withdrawn}
use chargeback_iq.Audit.Book.{BookRun, book_of}
use chargeback_iq.Audit.Book.Refines.{HasOwners, Reach_refines}
use chargeback_iq.Tests.World.{env, empty_db, first_dispute, opening, review, reviewed, reviewed_db}

-- u, uu, uuu, …
abbrev mark : ℕ → String
mark zero = "u"
mark (suc n) = "u" ++ mark n

one : len "u" ≡ 1
one = refl

len-mark : (n : ℕ) → len (mark n) ≡ suc n
len-mark zero = refl
len-mark (suc n) = omega (arith, len-append "u" (mark n), one, len-mark n)

mark_injective : (n m : ℕ) → mark n ≡ mark m → n ≡ m
mark_injective n m e = omega (arith, len-mark n, len-mark m, ap len e)

abbrev pub fresh_env : Env
fresh_env = record env { random_uuid = mark }

-- The case is on file, and nothing is on record of it.
abbrev pub waiting_db : Db
waiting_db = record empty_db { disputes = first_dispute ∷ [] }

pub waiting-HasFreshIds : HasFreshIds fresh_env waiting_db
waiting-HasFreshIds = record { different = mark_injective; drawn = λ e i. elim i [ ] }

waiting-HasUniqueIds : HasUniqueIds waiting_db
waiting-HasUniqueIds d e i j same = ground (arith, i, j)

waiting-CanExpire : CanExpire waiting_db first_dispute
unfolding dec_text find_transition
waiting-CanExpire = record {
  status = refl;
  target = refl;
  row = record {
    from_status = "CHARGEBACK_RECEIVED";
    to_status = "EXPIRED";
    triggered_by = "SYSTEM";
    requires_evidence = false;
    description = "The response deadline passed with no action.";
  };
  found = refl;
  free = refl;
}

expire_overdue_expires_example :
    (r : SweepResult) × (db' : Db) × (expire_overdue_disputes fresh_env 777_605_000 waiting_db
      ≡ returned r db')
    × In "u0" r.expired
    × HasExpired db' "u0"
expire_overdue_expires_example =
    expire_overdue_expires fresh_env 777_605_000 waiting_db first_dispute waiting-HasUniqueIds
      waiting-HasFreshIds (inl refl) refl waiting-CanExpire

-- A sweep at the deadline.
abbrev swept_db : Db
swept_db = state_of (expire_overdue_disputes fresh_env 777_605_000 waiting_db)

one_sweep : Reach waiting_db swept_db
one_sweep = next here (sweep fresh_env 777_605_000 refl)

waiting-HasOwners : HasOwners waiting_db
waiting-HasOwners = λ e i. elim i [ ]

Reach_refines_example :
    BookRun waiting_db.transitions waiting_db.statuses (book_of waiting_db) (book_of swept_db)
Reach_refines_example = Reach_refines one_sweep waiting-HasOwners

-- Opening a case and taking it up for review.
two_calls : Reach empty_db reviewed_db
two_calls = next (next here (opening_step env opening refl)) (change_step env review refl)

empty-HasRuns : HasRuns empty_db
empty-HasRuns = record { table = refl; runs = λ d i. elim i [ ] }

reviewed-In : In reviewed reviewed_db.disputes
unfolding open_dispute open_body open_in open_for write_opened with_transaction
    find_dispute_by_case_number insert_dispute append_event dispute_violation passes_checks is_taken
    has_parents event_violation event_passes_checks event_has_parents list_deadline_rules
    find_reason_code find_transaction_context select_deadline_rule select_from is_candidate score
    compute_respond_by respond_within dec_text change_status change_body change_locked write_change
    lock_dispute_for_update list_status_transitions list_statuses count_evidence find_transition
    assert_transition check_evidence update_dispute_status
reviewed-In = inl refl

Reach-withdrawn_example : ◌≢◌ {A = String} "UNDER_REVIEW" "WITHDRAWN"
Reach-withdrawn_example = Reach-withdrawn two_calls empty-HasRuns reviewed reviewed-In

-- A case that was represented with a receipt and won.
abbrev won_case : Dispute
won_case = record first_dispute { status_code = "WON" }

abbrev won_db : Db
won_db = record empty_db {
  disputes = won_case ∷ [];
  evidence =
      record {
        id = "u1";
        dispute_id = "u0";
        kind_code = "RECEIPT";
        description = none;
        file_ref = none;
        collected_by = none;
        created_at = 5_001;
      }
      ∷ [];
}

won_run : CaseRun 1 "CHARGEBACK_RECEIVED" "WON"
unfolding assert_transition find_transition check_evidence dec_text
won_run =
    move (record { from = "REPRESENTED"; to = "WON"; triggered_by = "PROCESSOR_EVENT" }) _
      (move (record { from = "UNDER_REVIEW"; to = "REPRESENTED"; triggered_by = "OPERATOR" }) _
        (move
          (record { from = "CHARGEBACK_RECEIVED"; to = "UNDER_REVIEW"; triggered_by = "OPERATOR" })
          _ start refl refl refl)
        refl refl refl)
      refl refl refl

one_item : count_evidence "u0" won_db ≡ 1
unfolding count_evidence dec_text
one_item = refl

won-HasRuns : HasRuns won_db
won-HasRuns = record { table = refl; runs = λ d i. of_row d i }
  where
    of_row :
        (d : Dispute)
        → In d won_db.disputes
        → CaseRun (count_evidence d.id won_db) "CHARGEBACK_RECEIVED" d.status_code
    of_row d (inl same) =
        subst
          (λ (x : Dispute).
            CaseRun (count_evidence x.id won_db) "CHARGEBACK_RECEIVED" x.status_code)
          (sym same) (subst (λ n. CaseRun n "CHARGEBACK_RECEIVED" "WON") (sym one_item) won_run)
    of_row d (inr i) = elim i [ ]

Reach-won_example : 1 ≤ count_evidence "u0" won_db
Reach-won_example = Reach-won here won-HasRuns won_case (inl refl) refl
