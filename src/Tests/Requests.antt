-- ===== src/Tests/Requests.antt =====
-- Requests to the routes of disputes.
use chargeback_iq.Prelude.{
  ◌≤◌, String, none, some, true, false, [], ◌∷◌, ◌≡◌, ◌≢◌, ◌↔◌, ◌⊎◌, refl, ap, ◌∙◌, inl, inr, any,
  find, In, All, dec_text,
}
use chargeback_iq.Deadlines.{expired}
use chargeback_iq.Schema.{Db, Dispute, Requirement, Kind}
use chargeback_iq.Seeds.Keys.{seeded-HasUniqueMoves}
use chargeback_iq.Tx.Laws.{SameTables}
use chargeback_iq.Repositories.Disputes.{DisputeDetails, find_dispute_by_id, has_code, is_kind}
use chargeback_iq.Repositories.Disputes.Queue.{
  list_events, list_evidence, list_open_disputes_by_deadline, list_overdue_open_disputes, order_by,
  insert_by,
}
use chargeback_iq.Repositories.Reference.{list_status_transitions, list_evidence_requirements}
use chargeback_iq.Routes.{reply, refusal, ErrorBody, serve, internal_error}
use chargeback_iq.Routes.Disputes.{
  queue_body, dispute_body, requirements_body, Schemas, DisputePage, dispute_page, Action,
  QueuePage, queue_row, RequirementsPage, requirements_page, missing_required, available_actions,
  get_dispute, get_queue, get_requirements, post_status,
}
use chargeback_iq.Routes.Actions.{IsRequest, post_status_offered, post_status_not_offered}
use chargeback_iq.Routes.Anonymous.{post_status_anonymous}
use chargeback_iq.Routes.Queue.{get_queue_urgent, get_queue_expired}
use chargeback_iq.Routes.Requirements.{HasKinds, IsMissing, get_requirements-IsMissing}
use chargeback_iq.Tests.World.{first_dispute}
use chargeback_iq.Tests.Runs.{fresh_env, waiting_db, waiting-HasFreshIds}

-- A request is a text: the id of a path, or the status that is asked for. The body "nobody" names no
-- operator.
abbrev pub z : Schemas String
z = record {
  uuid_param = λ s. some s;
  open_dispute_schema = λ s. none;
  change_status_schema = λ s. some (record { to_status = s; actor_id = some "op1"; note = none });
  add_evidence_schema = λ s. none;
  queue_query_schema = λ s. some 50;
}

abbrev nameless : Schemas String
nameless = record z {
  change_status_schema = λ s. some (record { to_status = s; actor_id = none; note = none });
}

abbrev details : DisputeDetails
details = record {
  dispute = first_dispute;
  reason_code = "10.4";
  is_terminal = false;
  is_won = none;
}

abbrev page : DisputePage
page = dispute_page 5_000 details [] [] waiting_db.transitions

shown : get_dispute z fresh_env "u0" waiting_db ≡ (reply 200 page, waiting_db)
unfolding get_dispute dispute_body serve find_dispute_by_id list_events list_evidence order_by
    list_status_transitions dec_text
shown = refl

shown_nameless : get_dispute nameless fresh_env "u0" waiting_db ≡ (reply 200 page, waiting_db)
unfolding get_dispute dispute_body serve find_dispute_by_id list_events list_evidence order_by
    list_status_transitions dec_text
shown_nameless = refl

abbrev take_up : Action
take_up = record {
  to_status = "UNDER_REVIEW";
  requires_evidence = false;
  description = "An operator picked the case up for assessment.";
}

is_offered : In take_up page.available_actions
unfolding available_actions dec_text
is_offered = inl refl

known_status : any (has_code "UNDER_REVIEW") waiting_db.statuses ≡ true
unfolding dec_text
known_status = refl

won_ne_review : ◌≢◌ {A = String} "WON" "UNDER_REVIEW"
won_ne_review = cc

review_request : IsRequest z fresh_env "u0" "UNDER_REVIEW" waiting_db page take_up
unfolding dec_text
review_request = record {
  id = "u0";
  input = record { to_status = "UNDER_REVIEW"; actor_id = some "op1"; note = none };
  operator = "op1";
  accepted_id = refl;
  accepted_body = refl;
  shown = shown;
  offered = is_offered;
  target = refl;
  actor = refl;
  known = refl;
}

post_status_offered_example :
    (u : Dispute) × (db' : Db) × (post_status z fresh_env "u0" "UNDER_REVIEW" waiting_db
      ≡ (reply 200 u, db'))
    × (u.id ≡ "u0")
    × (u.status_code ≡ "UNDER_REVIEW")
unfolding review_request
post_status_offered_example =
    post_status_offered z fresh_env "u0" "UNDER_REVIEW" waiting_db page take_up review_request
      seeded-HasUniqueMoves waiting-HasFreshIds known_status (λ e. absurd (cc e))

-- Nothing leads from a received chargeback to WON.
no_way_to_win : (a : Action) → In a page.available_actions → ◌≢◌ {A = String} "WON" a.to_status
unfolding available_actions dec_text
no_way_to_win a (inl e) f = won_ne_review (f ∙ ap (λ (x : Action). x.to_status) e)
no_way_to_win a (inr i) f = elim i [ ]

post_status_not_offered_example :
    (e : ErrorBody) × (post_status z fresh_env "u0" "WON" waiting_db ≡ (refusal 409 e, waiting_db))
    × (e.code ≡ "INVALID_TRANSITION")
post_status_not_offered_example =
    post_status_not_offered z fresh_env "u0" "WON" "u0"
      (record { to_status = "WON"; actor_id = some "op1"; note = none }) waiting_db page refl refl
      shown no_way_to_win

post_status_anonymous_example :
    (db' : Db) × (post_status nameless fresh_env "u0" "UNDER_REVIEW" waiting_db
      ≡ (refusal 500 internal_error, db'))
    × SameTables waiting_db db'
post_status_anonymous_example =
    post_status_anonymous nameless fresh_env "u0" "UNDER_REVIEW" "u0"
      (record { to_status = "UNDER_REVIEW"; actor_id = none; note = none }) waiting_db page take_up
      refl refl refl shown_nameless is_offered refl (λ e. absurd (cc e)) seeded-HasUniqueMoves
      known_status

abbrev queue : QueuePage
queue = record { rows = queue_row 5_000 first_dispute ∷ []; count = 1; generated_at = 5_000 }

queued : get_queue z fresh_env "" waiting_db ≡ (reply 200 queue, waiting_db)
unfolding get_queue queue_body serve list_open_disputes_by_deadline order_by insert_by
queued = refl

get_queue_urgent_example :
    In (queue_row 5_000 first_dispute) queue.rows
    ⊎ ((queue.count ≡ 50) × All (λ r. r.dispute.respond_by ≤ 777_605_000) queue.rows)
get_queue_urgent_example =
    get_queue_urgent z fresh_env "" 50 waiting_db queue first_dispute refl queued (inl refl) refl

get_queue_expired_test :
    ((queue_row 5_000 first_dispute).deadline_state ≡ expired)
    ↔ In first_dispute (list_overdue_open_disputes 5_000 waiting_db)
get_queue_expired_test =
    get_queue_expired z fresh_env "" 50 waiting_db queue (queue_row 5_000 first_dispute) refl queued
      (inl refl)

waiting-HasKinds : HasKinds waiting_db
unfolding dec_text
waiting-HasKinds = record { required = of_row; filed = λ e i. elim i [ ] }
  where
    of_row :
        (r : Requirement)
        → In r waiting_db.requirements
        → (k : Kind) × (find (is_kind r.evidence_kind_code) waiting_db.evidence_kinds ≡ some k)
    of_row r (inl e) = (
      _,
      ap (λ (x : Requirement). find (is_kind x.evidence_kind_code) waiting_db.evidence_kinds) e,
    )
    of_row r (inr i) = elim i [ ]

found : find_dispute_by_id "u0" waiting_db ≡ some details
unfolding find_dispute_by_id dec_text
found = refl

abbrev requirements : RequirementsPage
requirements =
    requirements_page details (list_evidence_requirements "r1" waiting_db)
      (list_evidence "u0" waiting_db)

listed : get_requirements z fresh_env "u0" waiting_db ≡ (reply 200 requirements, waiting_db)
unfolding get_requirements requirements_body serve find_dispute_by_id dec_text
listed = refl

receipt_is_missing : In "RECEIPT" requirements.missing_required
unfolding missing_required list_evidence_requirements list_evidence order_by insert_by dec_text
receipt_is_missing = inl refl

get_requirements-IsMissing_example : IsMissing waiting_db "r1" "u0" "RECEIPT"
get_requirements-IsMissing_example =
    (get_requirements-IsMissing z fresh_env "u0" "u0" "RECEIPT" waiting_db details requirements
        waiting-HasKinds refl found listed).0
      receipt_is_missing
