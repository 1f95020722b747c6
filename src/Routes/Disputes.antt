-- ===== src/Routes/Disputes.antt =====
-- src/routes/disputes.js and the schemas of its requests in src/routes/schemas.js.
use chargeback_iq.Prelude.{
  ℕ, String, Option, none, some, Bool, true, not, ◌&&◌, List, [], map, keep, any, length, ◌==◌, leb,
}
use chargeback_iq.Prelude.Int.{ℤ}
use chargeback_iq.Lifecycle.{Transition}
use chargeback_iq.Deadlines.{Date, at, DeadlineState, deadline_state, days_remaining}
use chargeback_iq.Schema.{Db, Env, Dispute, Event, Evidence}
use chargeback_iq.Tx.{M, ◌>>=◌, pure, reads, or_throw, lift}
use chargeback_iq.Repositories.Disputes.{
  DisputeDetails, find_dispute_by_id, is_root_cause, is_positive, is_nonnegative, NewEvidence,
}
use chargeback_iq.Repositories.Disputes.Queue.{
  list_open_disputes_by_deadline, list_events, list_evidence, ListedEvidence,
}
use chargeback_iq.Repositories.Reference.{
  list_status_transitions, list_evidence_requirements, ListedRequirement,
}
use chargeback_iq.Services.DisputeService.{
  OpenInput, OpenedDispute, open_dispute, ChangeInput, change_status, dispute_not_found,
}
use chargeback_iq.Services.Evidence.{add_evidence}
use chargeback_iq.Routes.{Response, serve, validate_body, validate_query, validate_params}

-- The data of openDisputeSchema.
pub record OpenBody : Type 0 where
  pub case_number : String
  pub transaction_id : String
  pub reason_code : String
  pub disputed_amount_minor : Option ℤ
  pub currency : Option String
  pub dispute_fee_minor : Option ℤ
  pub root_cause : Option String
  pub cycle : Option ℕ
  pub received_at : Option ℕ

-- The data of changeStatusSchema.
pub record StatusBody : Type 0 where
  pub to_status : String
  pub actor_id : Option String
  pub note : Option String

-- The data of addEvidenceSchema.
pub record EvidenceBody : Type 0 where
  pub kind_code : String
  pub description : Option String
  pub file_ref : Option String
  pub collected_by : Option String

-- What the schemas accept of the values of type `J` that a request carries. The id of a path is a UUID,
-- the limit of a query has its default.
pub record Schemas (J : Type 0) : Type 0 where
  pub uuid_param : J → Option String
  pub open_dispute_schema : J → Option OpenBody
  pub change_status_schema : J → Option StatusBody
  pub add_evidence_schema : J → Option EvidenceBody
  pub queue_query_schema : J → Option ℕ

abbrev pub absent_or : {A : Type 0} → (A → Bool) → Option A → Bool
absent_or p none = true
absent_or p (some a) = p a

-- The constraints of openDisputeSchema on the numbers and on the cause.
unfoldable pub meets_open_schema : OpenBody → Bool
meets_open_schema b =
    absent_or is_positive b.disputed_amount_minor
    && (absent_or is_nonnegative b.dispute_fee_minor
        && (absent_or is_root_cause b.root_cause
            && absent_or (λ (n : ℕ). leb 1 n && leb n 3) b.cycle))

abbrev pub date_of : Option ℕ → Option Date
date_of none = none
date_of (some t) = some (at t)

-- `req.body` as the argument of `openDispute`.
abbrev pub open_input : OpenBody → OpenInput
open_input b = record {
  transaction_id = b.transaction_id;
  reason_code = some b.reason_code;
  case_number = some b.case_number;
  received_at = date_of b.received_at;
  root_cause = b.root_cause;
  cycle = b.cycle;
  disputed_amount_minor = b.disputed_amount_minor;
  currency = b.currency;
  dispute_fee_minor = b.dispute_fee_minor;
}

-- The argument of `changeStatus`.
abbrev pub change_input : (id : String) → StatusBody → ChangeInput
change_input id b = record {
  dispute_id = id;
  to_status = b.to_status;
  triggered_by = "OPERATOR";
  actor_id = b.actor_id;
  note = b.note;
  payload = [];
}

abbrev pub evidence_input : (id : String) → EvidenceBody → NewEvidence
evidence_input id b = record {
  dispute_id = id;
  kind_code = b.kind_code;
  description = b.description;
  file_ref = b.file_ref;
  collected_by = b.collected_by;
}

-- A row of the queue with its clock.
pub record QueueRow : Type 0 where
  pub dispute : Dispute
  pub days_remaining : ℤ
  pub deadline_state : DeadlineState

abbrev pub queue_row : (now : ℕ) → Dispute → QueueRow
queue_row now d = record {
  dispute = d;
  days_remaining = days_remaining now d.respond_by;
  deadline_state = deadline_state now d.respond_by 3;
}

pub record QueuePage : Type 0 where
  pub rows : List QueueRow
  pub count : ℕ
  pub generated_at : ℕ

abbrev pub queue_page : (now : ℕ) → List Dispute → QueuePage
queue_page now rows = record {
  rows = map (queue_row now) rows;
  count = length rows;
  generated_at = now;
}

-- A button of the user interface.
pub record Action : Type 0 where
  pub to_status : String
  pub requires_evidence : Bool
  pub description : String

abbrev pub is_action : (status_code : String) → Transition → Bool
is_action status_code t = t.from_status == status_code && t.triggered_by == "OPERATOR"

abbrev pub to_action : Transition → Action
to_action t = record {
  to_status = t.to_status;
  requires_evidence = t.requires_evidence;
  description = t.description;
}

unfoldable pub available_actions : (status_code : String) → List Transition → List Action
available_actions status_code ts = map to_action (keep (is_action status_code) ts)

-- The page of one dispute.
pub record DisputePage : Type 0 where
  pub dispute : DisputeDetails
  pub days_remaining : ℤ
  pub deadline_state : DeadlineState
  pub events : List Event
  pub evidence : List ListedEvidence
  pub available_actions : List Action

abbrev pub dispute_page :
    (now : ℕ) → DisputeDetails → List Event → List ListedEvidence → List Transition → DisputePage
dispute_page now details events evidence transitions = record {
  dispute = details;
  days_remaining = days_remaining now details.dispute.respond_by;
  deadline_state = deadline_state now details.dispute.respond_by 3;
  events = events;
  evidence = evidence;
  available_actions = available_actions details.dispute.status_code transitions;
}

pub record ShownRequirement : Type 0 where
  pub requirement : ListedRequirement
  pub satisfied : Bool

pub record RequirementsPage : Type 0 where
  pub reason_code : String
  pub requirements : List ShownRequirement
  pub missing_required : List String

-- `have.has(code)`
abbrev pub has_kind : List ListedEvidence → (code : String) → Bool
has_kind collected code = any (λ e. e.item.kind_code == code) collected

abbrev pub is_missing : List ListedEvidence → ListedRequirement → Bool
is_missing collected r =
    r.requirement == "REQUIRED" && not (has_kind collected r.evidence_kind_code)

unfoldable pub missing_required : List ListedEvidence → List ListedRequirement → List String
missing_required collected rs = map (λ r. r.evidence_kind_code) (keep (is_missing collected) rs)

abbrev pub requirements_page :
    DisputeDetails → List ListedRequirement → (collected : List ListedEvidence) → RequirementsPage
requirements_page details requirements collected = record {
  reason_code = details.reason_code;
  requirements =
      map {B = ShownRequirement}
        (λ r. record { requirement = r; satisfied = has_kind collected r.evidence_kind_code })
        requirements;
  missing_required = missing_required collected requirements;
}

module _ {J : Type 0} (z : Schemas J) (env : Env) where
  -- POST /api/disputes
  unfoldable pub post_dispute : (body : J) → Db → Response OpenedDispute × Db
  post_dispute body = serve 201 (do
    input ← lift (validate_body (z.open_dispute_schema body))
    open_dispute env (open_input input))

  -- GET /api/disputes/queue
  unfoldable pub queue_body : (query : J) → M QueuePage
  queue_body query = do
    limit ← lift (validate_query (z.queue_query_schema query))
    rows ← reads (list_open_disputes_by_deadline limit)
    pure (queue_page env.now rows)

  unfoldable pub get_queue : (query : J) → Db → Response QueuePage × Db
  get_queue query = serve 200 (queue_body query)

  -- GET /api/disputes/:id
  unfoldable pub dispute_body : (params : J) → M DisputePage
  dispute_body params = do
    id ← lift (validate_params (z.uuid_param params))
    found ← reads (find_dispute_by_id id)
    details ← or_throw found (dispute_not_found id)
    events ← reads (list_events details.dispute.id)
    evidence ← reads (list_evidence details.dispute.id)
    transitions ← reads list_status_transitions
    pure (dispute_page env.now details events evidence transitions)

  unfoldable pub get_dispute : (params : J) → Db → Response DisputePage × Db
  get_dispute params = serve 200 (dispute_body params)

  -- POST /api/disputes/:id/status
  unfoldable pub post_status : (params body : J) → Db → Response Dispute × Db
  post_status params body = serve 200 (do
    id ← lift (validate_params (z.uuid_param params))
    input ← lift (validate_body (z.change_status_schema body))
    change_status env (change_input id input))

  -- POST /api/disputes/:id/evidence
  unfoldable pub post_evidence : (params body : J) → Db → Response Evidence × Db
  post_evidence params body = serve 201 (do
    id ← lift (validate_params (z.uuid_param params))
    input ← lift (validate_body (z.add_evidence_schema body))
    add_evidence env (evidence_input id input))

  -- GET /api/disputes/:id/evidence-requirements
  unfoldable pub requirements_body : (params : J) → M RequirementsPage
  requirements_body params = do
    id ← lift (validate_params (z.uuid_param params))
    found ← reads (find_dispute_by_id id)
    details ← or_throw found (dispute_not_found id)
    requirements ← reads (list_evidence_requirements details.dispute.reason_code_id)
    collected ← reads (list_evidence details.dispute.id)
    pure (requirements_page details requirements collected)

  unfoldable pub get_requirements : (params : J) → Db → Response RequirementsPage × Db
  get_requirements params = serve 200 (requirements_body params)
