-- ===== src/Repositories/Disputes.antt =====
-- src/repositories/disputeRepository.js: reads and writes for disputes, evidence and the event log,
-- with the constraints of migrations/004_operational_schema.sql that the writes meet.
pub mod Laws
pub mod Queue
pub mod Details
pub mod Order
use chargeback_iq.Prelude.{
  ℕ, suc, ◌+◌, zero, String, Option, none, some, Bool, true, false, not, ◌&&◌, ◌||◌, List, [], ◌∷◌,
  map, find, any, keep, length, if◌then◌else◌, ◌==◌, opt_eq, leb, ltb, is_some, or_default,
}
use chargeback_iq.Prelude.Int.{ℤ, pos, negsuc}
use chargeback_iq.Deadlines.{Date, at, invalid}
use chargeback_iq.Errors.{Thrown, Result, ok, err, database}
use chargeback_iq.Schema.{
  Db, Env, Dispute, Event, Evidence, Json, Status, ReasonCode, Kind, Operator,
}
use chargeback_iq.Tx.{M, write_unless, Outcome, returned, threw}

-- The values of an INSERT INTO disputes. A value that may be undefined is an option.
pub record NewDispute : Type 0 where
  pub case_number : Option String
  pub transaction_id : String
  pub network_code : String
  pub reason_code_id : String
  pub status_code : String
  pub root_cause : String
  pub cycle : ℕ
  pub disputed_amount_minor : ℤ
  pub currency : String
  pub dispute_fee_minor : ℤ
  pub received_at : ℕ
  pub respond_by : Date
  pub provisional_credit_to_cardholder_at : Option ℕ

module _ (env : Env) (id : String) (d : NewDispute) where
  abbrev dispute_with : String → ℕ → Dispute
  dispute_with case_number respond_by = record {
    id = id;
    case_number = case_number;
    transaction_id = d.transaction_id;
    network_code = d.network_code;
    reason_code_id = d.reason_code_id;
    status_code = d.status_code;
    root_cause = d.root_cause;
    cycle = d.cycle;
    disputed_amount_minor = d.disputed_amount_minor;
    currency = d.currency;
    dispute_fee_minor = d.dispute_fee_minor;
    provisional_credit_to_cardholder_at = d.provisional_credit_to_cardholder_at;
    received_at = d.received_at;
    respond_by = respond_by;
    assigned_to = none;
    closed_at = none;
    updated_at = env.db_now;
  }

  abbrev numbered : Option String → ℕ → Result Dispute
  numbered none respond_by = err (database "23502")
  numbered (some case_number) respond_by = ok (dispute_with case_number respond_by)

  -- Invalid Date is no timestamp (22007); a case number must be there (23502).
  abbrev pub dispute_row : Date → Result Dispute
  dispute_row invalid = err (database "22007")
  dispute_row (at respond_by) = numbered d.case_number respond_by

abbrev pub is_positive : ℤ → Bool
is_positive (pos zero) = false
is_positive (pos (suc n)) = true
is_positive (negsuc n) = false

abbrev pub is_nonnegative : ℤ → Bool
is_nonnegative (pos n) = true
is_nonnegative (negsuc n) = false

abbrev pub has_id : String → Dispute → Bool
has_id id d = d.id == id

abbrev pub has_case_number : String → Dispute → Bool
has_case_number case_number d = d.case_number == case_number

abbrev pub has_code : String → Status → Bool
has_code code s = s.code == code

abbrev pub is_root_cause : String → Bool
is_root_cause c =
    c == "ACTUAL_FRAUD" || (c == "MERCHANT_ERROR" || (c == "FRIENDLY_FRAUD" || c == "UNDETERMINED"))

-- The CHECK constraints of `disputes`.
unfoldable pub passes_checks : Dispute → Bool
passes_checks d =
    is_root_cause d.root_cause
    && (leb 1 d.cycle
        && (leb d.cycle 3
            && (is_positive d.disputed_amount_minor
                && (is_nonnegative d.dispute_fee_minor && ltb d.received_at d.respond_by))))

-- Its primary key and its unique case number.
unfoldable pub is_taken : Db → Dispute → Bool
is_taken db d = any (has_id d.id) db.disputes || any (has_case_number d.case_number) db.disputes

-- Its foreign keys, but for `network_code` and `assigned_to`: the code comes from the payment's row, which
-- has the same foreign key, and an insert assigns nobody.
unfoldable pub has_parents : Db → Dispute → Bool
has_parents db d =
    any (λ t. t.id == d.transaction_id) db.payments
    && (any (λ rc. rc.id == d.reason_code_id) db.reason_codes
        && any (has_code d.status_code) db.statuses)

unfoldable pub dispute_violation : Db → Dispute → Option String
unfolding passes_checks is_taken has_parents
dispute_violation db d =
    if not (passes_checks d)
    then some "23514"
    else if is_taken db d
    then some "23505"
    else if has_parents db d
    then none
    else some "23503"

-- A UUID is drawn whatever becomes of the row.
abbrev pub draw_uuid : Db → Db
draw_uuid db = record db { drawn = suc db.drawn }

abbrev pub add_dispute : Dispute → Db → Db
add_dispute d db = record db { disputes = d ∷ db.disputes }

abbrev pub insert_row : Result Dispute → M Dispute
insert_row (err e) db = threw e db
insert_row (ok d) db = write_unless (dispute_violation db d) d (add_dispute d db) db

unfoldable pub insert_dispute : Env → NewDispute → M Dispute
insert_dispute env d db =
    insert_row (dispute_row env (env.random_uuid db.drawn) d d.respond_by) (draw_uuid db)

-- What `findDisputeById` joins to the row.
pub record DisputeDetails : Type 0 where
  pub dispute : Dispute
  pub reason_code : String
  pub is_terminal : Bool
  pub is_won : Option Bool

abbrev details : Dispute → Option ReasonCode → Option Status → Option DisputeDetails
details d (some rc) (some s) =
    some (record {
      dispute = d;
      reason_code = rc.code;
      is_terminal = s.is_terminal;
      is_won = s.is_won;
    })
details d _ none = none
details d none _ = none

abbrev joined : Db → Option Dispute → Option DisputeDetails
joined db none = none
joined db (some d) =
    details d (find (λ rc. rc.id == d.reason_code_id) db.reason_codes)
      (find (has_code d.status_code) db.statuses)

unfoldable pub find_dispute_by_id : String → Db → Option DisputeDetails
find_dispute_by_id id db = joined db (find (has_id id) db.disputes)

unfoldable pub find_dispute_by_case_number : Option String → Db → Option Dispute
find_dispute_by_case_number case_number db =
    find (λ d. opt_eq case_number d.case_number) db.disputes

-- The lock is held until the transaction ends: one step of the model, but in Services.Interleaved.
unfoldable pub lock_dispute_for_update : String → Db → Option Dispute
lock_dispute_for_update id db = find (has_id id) db.disputes

abbrev pub with_status : Env → (to_status : String) → Option ℕ → Dispute → Dispute
with_status env to_status none d = record d { status_code = to_status; updated_at = env.db_now }
with_status env to_status (some t) d = record d {
  status_code = to_status;
  closed_at = some t;
  updated_at = env.db_now;
}

abbrev pub replace : (Dispute → Bool) → (Dispute → Dispute) → List Dispute → List Dispute
replace p f = map (λ d. if p d then f d else d)

-- The WHERE of the update.
abbrev pub is_expected : (id expected_status : String) → Dispute → Bool
is_expected id expected_status d = d.id == id && d.status_code == expected_status

-- The foreign key of `status_code`.
abbrev pub status_violation : Db → String → Option String
status_violation db to_status = if any (has_code to_status) db.statuses then none else some "23503"

module _ (env : Env) (id expected_status to_status : String) (closed_at : Option ℕ) where
  abbrev pub updated_row : Option Dispute → M (Option Dispute)
  updated_row none db = returned none db
  updated_row (some d) db =
      write_unless (status_violation db to_status) (some (with_status env to_status closed_at d))
        (record db {
          disputes =
              replace (is_expected id expected_status) (with_status env to_status closed_at)
                db.disputes;
        })
        db

  unfoldable pub update_dispute_status : M (Option Dispute)
  update_dispute_status db = updated_row (find (is_expected id expected_status) db.disputes) db

abbrev pub with_root_cause : Env → (root_cause : String) → Dispute → Dispute
with_root_cause env root_cause d = record d { root_cause = root_cause; updated_at = env.db_now }

module _ (env : Env) (id root_cause : String) where
  abbrev caused_row : Option Dispute → M (Option Dispute)
  caused_row none db = returned none db
  caused_row (some d) db =
      write_unless (if is_root_cause root_cause then none else some "23514")
        (some (with_root_cause env root_cause d))
        (record db { disputes = replace (has_id id) (with_root_cause env root_cause) db.disputes })
        db

  -- No other file calls it.
  unfoldable pub set_root_cause : M (Option Dispute)
  set_root_cause db = caused_row (find (has_id id) db.disputes) db

pub record NewEvent : Type 0 where
  pub dispute_id : String
  pub event_type : String
  pub from_status : Option String
  pub to_status : Option String
  pub actor_type : String
  pub actor_id : Option String
  pub note : Option String
  pub payload : List (String × Json)

abbrev pub event_row : Env → Db → NewEvent → Event
event_row env db e = record {
  id = env.random_uuid db.drawn;
  dispute_id = e.dispute_id;
  event_type = e.event_type;
  from_status = e.from_status;
  to_status = e.to_status;
  actor_type = e.actor_type;
  actor_id = e.actor_id;
  note = e.note;
  payload = e.payload;
  occurred_at = env.db_now;
  seq = db.event_seq;
}

abbrev pub is_operator : String → Operator → Bool
is_operator id o = o.id == id

-- A nullable foreign key.
abbrev pub refers : (String → Bool) → Option String → Bool
refers exists none = true
refers exists (some key) = exists key

abbrev pub is_actor_type : String → Bool
is_actor_type a = a == "OPERATOR" || (a == "PROCESSOR_EVENT" || a == "SYSTEM")

-- The CHECK constraints of `dispute_events`: a known actor, and an operator's event names the operator.
unfoldable pub event_passes_checks : Event → Bool
event_passes_checks e =
    is_actor_type e.actor_type && (not (e.actor_type == "OPERATOR") || is_some e.actor_id)

unfoldable pub event_has_parents : Db → Event → Bool
event_has_parents db e =
    any (has_id e.dispute_id) db.disputes
    && (refers (λ s. any (has_code s) db.statuses) e.from_status
        && (refers (λ s. any (has_code s) db.statuses) e.to_status
            && refers (λ id. any (is_operator id) db.operators) e.actor_id))

unfoldable pub event_violation : Db → Event → Option String
unfolding event_passes_checks event_has_parents
event_violation db e =
    if not (event_passes_checks e)
    then some "23514"
    else if any (λ f. f.id == e.id) db.events
    then some "23505"
    else if event_has_parents db e
    then none
    else some "23503"

-- The UUID and the sequence number are drawn whatever becomes of the row.
abbrev pub draw_event : Db → Db
draw_event db = record db { drawn = suc db.drawn; event_seq = suc db.event_seq }

abbrev pub add_event : Event → Db → Db
add_event e db = record db { events = e ∷ db.events }

unfoldable pub append_event : Env → NewEvent → M Event
append_event env e db =
    let row = event_row env db e in
    write_unless (event_violation db row) row (add_event row (draw_event db)) (draw_event db)

abbrev pub is_evidence_of : String → Evidence → Bool
is_evidence_of dispute_id e = e.dispute_id == dispute_id

unfoldable pub count_evidence : String → Db → ℕ
count_evidence dispute_id db = length (keep (is_evidence_of dispute_id) db.evidence)

pub record NewEvidence : Type 0 where
  pub dispute_id : String
  pub kind_code : String
  pub description : Option String
  pub file_ref : Option String
  pub collected_by : Option String

abbrev pub evidence_row : Env → Db → NewEvidence → Evidence
evidence_row env db e = record {
  id = env.random_uuid db.drawn;
  dispute_id = e.dispute_id;
  kind_code = e.kind_code;
  description = e.description;
  file_ref = e.file_ref;
  collected_by = e.collected_by;
  created_at = env.db_now;
}

abbrev pub is_kind : String → Kind → Bool
is_kind code k = k.code == code

unfoldable pub evidence_violation : Db → Evidence → Option String
evidence_violation db e =
    if any (λ f. f.id == e.id) db.evidence
    then some "23505"
    else if any (has_id e.dispute_id) db.disputes
        && (any (is_kind e.kind_code) db.evidence_kinds
            && refers (λ id. any (is_operator id) db.operators) e.collected_by)
    then none
    else some "23503"

abbrev pub add_evidence_row : Evidence → Db → Db
add_evidence_row e db = record db { evidence = e ∷ db.evidence }

unfoldable pub insert_evidence : Env → NewEvidence → M Evidence
insert_evidence env e db =
    let row = evidence_row env db e in
    write_unless (evidence_violation db row) row (add_evidence_row row (draw_uuid db))
      (draw_uuid db)
