-- ===== src/Routes/App/Writes.antt =====
-- Which requests to the application may write, and what the others leave.
use chargeback_iq.Prelude.{
  ℕ, String, some, Bool, true, false, ◌&&◌, ◌||◌, List, [], ◌∷◌, ◌≡◌, refl, if◌then◌else◌,
}
use chargeback_iq.Schema.{Db, Env}
use chargeback_iq.Tx.{lift, M, Outcome, returned, threw, reads}
use chargeback_iq.Tx.Keeps.{
  Keeps, Keeps-pure, Keeps-reads, Keeps-lift, Keeps-bind, Keeps-or_throw-bind, state_of,
}
use chargeback_iq.Repositories.Disputes.{NewEvidence}
use chargeback_iq.Repositories.Webhooks.{NewDelivery}
use chargeback_iq.Services.DisputeService.{OpenInput, open_dispute, ChangeInput, change_status}
use chargeback_iq.Services.Evidence.{add_evidence}
use chargeback_iq.Services.WebhookService.{process_delivery}
use chargeback_iq.Services.Compliance.Counts.{Keeps-evaluate_all_programmes}
use chargeback_iq.Repositories.Disputes.{find_dispute_by_id}
use chargeback_iq.Repositories.Disputes.Queue.{
  list_open_disputes_by_deadline, list_events, list_evidence,
}
use chargeback_iq.Repositories.Reference.{
  list_statuses, list_deadline_rules, find_reason_code, list_status_transitions,
  list_evidence_requirements,
}
use chargeback_iq.Services.DisputeService.{dispute_not_found}
use chargeback_iq.Routes.{validate_query, validate_params, Response, serve, answer}
use chargeback_iq.Routes.Disputes.{
  get_queue, get_dispute, get_requirements, queue_body, dispute_body, requirements_body, queue_page,
  dispute_page, requirements_page,
}
use chargeback_iq.Routes.Reference.{
  get_statuses, get_transitions, get_deadline_rules, get_reason_code, get_compliance,
  compliance_body,
}
use chargeback_iq.Routes.App.{
  Setup, HttpRequest, Page, Handler, page, is_post, is_read, when, compliance_router,
  reference_router, respond_with,
}

-- The four routes that write: an independent table of their paths.
abbrev pub is_written_path :
    (same_segment : String → String → Bool) → (segments : List String) → Bool
is_written_path same [] = false
is_written_path same (a ∷ []) = false
is_written_path same (a ∷ b ∷ []) = same "webhooks" a || (same "api" a && same "disputes" b)
is_written_path same (a ∷ b ∷ id ∷ []) = false
is_written_path same (a ∷ b ∷ id ∷ part ∷ []) =
    same "api" a && (same "disputes" b && (same "status" part || same "evidence" part))
is_written_path same (a ∷ b ∷ id ∷ part ∷ more ∷ rest) = false

abbrev pub is_write_request : {J : Type 0} → Setup J → HttpRequest J → Bool
is_write_request setup req = is_post req.method && is_written_path setup.same_segment req.segments

-- A route that keeps `P`, whatever it answers.
pub record ResponseKeeps {A : Type 0} (P : Db → Type 0) (h : Db → Response A × Db) : Type 0 where
  pub after : (db : Db) → P db → P (h db).1

-- A handler that keeps `P`, whatever it answers.
pub record HandlerKeeps (P : Db → Type 0) (h : Handler) : Type 0 where
  pub after : (db : Db) → P db → P (h db).1

-- The calls behind the routes that write keep `P`.
pub record CallsKeep (P : Db → Type 0) (env : Env) : Type 0 where
  pub opening : (input : OpenInput) → Keeps P (open_dispute env input)
  pub change : (input : ChangeInput) → Keeps P (change_status env input)
  pub evidence : (input : NewEvidence) → Keeps P (add_evidence env input)
  pub webhook : (input : NewDelivery) → Keeps P (process_delivery env input)

module _ (P : Db → Type 0) where
  pub served : {A : Type 0} (status : ℕ) (m : M A) → Keeps P m → ResponseKeeps P (serve status m)
  unfolding serve
  served {A} status m k = record { after = λ db p. ended (m db) (k.at db p) }
    where
      ended : (o : Outcome A) → P (state_of o) → P (answer status o).1
      ended (returned a db) q = q
      ended (threw e db) q = q

  pub paged_keeps :
      {A : Type 0} (f : A → Page) (h : Db → Response A × Db)
      → ResponseKeeps P h
      → HandlerKeeps P (page f h)
  paged_keeps f h k = record { after = k.after }

  pub responded : (r : Response Page) → HandlerKeeps P (respond_with r)
  responded r = record { after = λ db p. p }

  pub branches :
      (b : Bool) (h k : Handler)
      → (b ≡ true → HandlerKeeps P h)
      → (b ≡ false → HandlerKeeps P k)
      → HandlerKeeps P (if b then h else k)
  branches true h k kh kk = kh refl
  branches false h k kh kk = kk refl

  module _ {J : Type 0} (setup : Setup J) (env : Env) (req : HttpRequest J) where
    pub when_keeps :
        (b : Bool) (h : Handler)
        → (b ≡ true → HandlerKeeps P h)
        → HandlerKeeps P (when setup env req b h)
    when_keeps true h kh = kh refl
    when_keeps false h kh = responded _

    pub queue_keeps : ResponseKeeps P (get_queue setup.schemas env req.query)
    unfolding get_queue queue_body
    queue_keeps = served 200 (queue_body setup.schemas env req.query) (
        Keeps-bind P (lift (validate_query (setup.schemas.queue_query_schema req.query))) _
          (Keeps-lift P _)
          (λ limit.
            Keeps-bind P (reads (list_open_disputes_by_deadline limit)) _ (Keeps-reads P _)
              (λ rows. Keeps-pure P (queue_page env.now rows))))

    pub dispute_keeps : (params : J) → ResponseKeeps P (get_dispute setup.schemas env params)
    unfolding get_dispute dispute_body
    dispute_keeps params = served 200 (dispute_body setup.schemas env params) (
        Keeps-bind P (lift (validate_params (setup.schemas.uuid_param params))) _ (Keeps-lift P _)
          (λ id. Keeps-bind P (reads (find_dispute_by_id id)) _ (Keeps-reads P _) (λ found.
            Keeps-or_throw-bind P found (dispute_not_found id) _ (λ details.
              Keeps-bind P (reads (list_events details.dispute.id)) _ (Keeps-reads P _) (λ events.
                Keeps-bind P (reads (list_evidence details.dispute.id)) _ (Keeps-reads P _)
                  (λ evidence.
                    Keeps-bind P (reads list_status_transitions) _ (Keeps-reads P _) (λ transitions.
                      Keeps-pure P (dispute_page env.now details events evidence transitions))))))))

    pub requirements_keeps :
        (params : J) → ResponseKeeps P (get_requirements setup.schemas env params)
    unfolding get_requirements requirements_body
    requirements_keeps params = served 200 (requirements_body setup.schemas env params) (
        Keeps-bind P (lift (validate_params (setup.schemas.uuid_param params))) _ (Keeps-lift P _)
          (λ id. Keeps-bind P (reads (find_dispute_by_id id)) _ (Keeps-reads P _) (λ found.
            Keeps-or_throw-bind P found (dispute_not_found id) _ (λ details.
              Keeps-bind P (reads (list_evidence_requirements details.dispute.reason_code_id)) _
                (Keeps-reads P _)
                (λ requirements.
                  Keeps-bind P (reads (list_evidence details.dispute.id)) _ (Keeps-reads P _)
                    (λ collected.
                      Keeps-pure P (requirements_page details requirements collected)))))))

    compliance_keeps :
        ResponseKeeps P
          (get_compliance setup.compliance_query setup.rounding setup.calendar req.query)
    unfolding get_compliance compliance_body
    compliance_keeps =
        served 200 (compliance_body setup.compliance_query setup.rounding setup.calendar req.query)
          (Keeps-bind P _ _ (Keeps-lift P _) (λ q. Keeps-evaluate_all_programmes P _ _ _ _))

    pub reference_keeps :
        (rest : List String) → HandlerKeeps P (reference_router setup env req rest)
    unfolding reference_router get_statuses get_transitions get_deadline_rules get_reason_code
    reference_keeps [] = responded _
    reference_keeps (part ∷ []) =
        branches (is_read req.method && setup.same_segment "statuses" part) _ _
          (λ _. paged_keeps _ _ (served 200 _ (Keeps-reads P list_statuses)))
          (λ _.
            branches (is_read req.method && setup.same_segment "transitions" part) _ _
              (λ _. paged_keeps _ _ (served 200 _ (Keeps-reads P list_status_transitions)))
              (λ _.
                when_keeps (is_read req.method && setup.same_segment "deadline-rules" part) _
                  (λ _. paged_keeps _ _ (served 200 _ (Keeps-reads P list_deadline_rules)))))
    reference_keeps (part ∷ network ∷ []) = responded _
    reference_keeps (part ∷ network ∷ code ∷ []) =
        when_keeps (is_read req.method && setup.same_segment "reason-codes" part) _ (λ _.
          paged_keeps _ _ (
            served 200 _ (
              Keeps-reads P (find_reason_code (setup.platform.to_upper_case network) (some code)))))
    reference_keeps (part ∷ network ∷ code ∷ more ∷ rest) = responded _

    pub compliance_router_keeps :
        (rest : List String) → HandlerKeeps P (compliance_router setup env req rest)
    unfolding compliance_router
    compliance_router_keeps [] =
        when_keeps (is_read req.method)
          (page Page.compliance
            (get_compliance setup.compliance_query setup.rounding setup.calendar req.query))
          (λ _. paged_keeps Page.compliance _ compliance_keeps)
    compliance_router_keeps (part ∷ rest) = responded _
