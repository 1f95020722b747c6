-- ===== src/Routes/App.antt =====
-- src/app.js: a request to the application, through its middleware and its routers, to a response.
--
-- The framework hands over the path as the list of its segments and compares a literal segment by
-- `same_segment` (by default without regard to case). What its body parsers make of the body and
-- whether the rate limiter lets a request pass are part of the request. OPTIONS, which the framework
-- answers itself, and the headers of helmet are left out.
pub mod Writes
pub mod Unmatched
pub mod Runs
use Prim.Native.String.{◌++◌}
use chargeback_iq.Prelude.{
  ℕ, String, Option, none, some, Bool, true, false, not, ◌&&◌, List, [], ◌∷◌, if◌then◌else◌,
}
use chargeback_iq.Errors.{no_details}
use chargeback_iq.Lifecycle.{Transition}
use chargeback_iq.Deadlines.{DeadlineRule}
use chargeback_iq.Ratios.{Rounding}
use chargeback_iq.Repositories.Volumes.{Calendar}
use chargeback_iq.Schema.{Db, Env, Dispute, Evidence, Status, ReasonCode}
use chargeback_iq.Services.Compliance.{Report}
use chargeback_iq.Services.DisputeService.{OpenedDispute}
use chargeback_iq.Routes.{Response, reply, refusal, ErrorBody, internal_error, not_found_handler}
use chargeback_iq.Routes.Disputes.{
  Schemas, QueuePage, DisputePage, RequirementsPage, post_dispute, get_queue, get_dispute,
  post_status, post_evidence, get_requirements,
}
use chargeback_iq.Routes.Webhooks.{Platform, WebhookRequest, WebhookReply, post_webhook}
use chargeback_iq.Routes.Reference.{
  get_statuses, get_transitions, get_deadline_rules, get_reason_code, ComplianceQuery,
  get_compliance,
}

-- `req.method`; a route of GET answers HEAD as well.
pub data Method : Type 0 where
  get head post : Method
  other : (name : String) → Method

abbrev pub name_of : Method → String
name_of get = "GET"
name_of head = "HEAD"
name_of post = "POST"
name_of (other name) = name

-- What the application is made of that does not change between requests.
pub record Setup (J : Type 0) : Type 0 where
  pub schemas : Schemas J
  pub compliance_query : J → Option ComplianceQuery
  pub id_param : String → J
  pub same_segment : String → String → Bool
  pub rounding : Rounding
  pub calendar : Calendar
  pub platform : Platform

-- A request. `raw_body` is none where express.raw gives no body or refuses it, `json` where express.json
-- refuses the body. `ping` is the message of `SELECT 1` where it fails.
pub record HttpRequest (J : Type 0) : Type 0 where
  pub method : Method
  pub path : String
  pub segments : List String
  pub query : J
  pub raw_body : Option String
  pub json : Option J
  pub timestamp : Option String
  pub signature : Option String
  pub webhook_id : Option String
  pub is_limited : Bool
  pub ping : Option String
  pub uptime_seconds : ℕ

-- The body of a response.
pub data Page : Type 0 where
  health : (uptime_seconds : ℕ) → Page
  ready : Page
  not_ready : (reason : String) → Page
  opened : OpenedDispute → Page
  queue : QueuePage → Page
  dispute : DisputePage → Page
  changed : Dispute → Page
  filed : Evidence → Page
  requirements : RequirementsPage → Page
  compliance : Report → Page
  statuses : List Status → Page
  transitions : List Transition → Page
  deadline_rules : List DeadlineRule → Page
  reason_code : Option ReasonCode → Page
  delivered : WebhookReply → Page

abbrev pub Handler : Type 0
Handler = Db → Response Page × Db

abbrev paged : {A : Type 0} → (A → Page) → Response A → Response Page
paged f (reply status a) = reply status (f a)
paged f (refusal status e) = refusal status e

abbrev pub page : {A : Type 0} → (A → Page) → (Db → Response A × Db) → Handler
page f handler db = (paged f (handler db).0, (handler db).1)

-- A response that does not touch the database.
abbrev pub respond_with : Response Page → Handler
respond_with r db = (r, db)

abbrev pub rate_limited : ErrorBody
rate_limited = record {
  code = "RATE_LIMITED";
  message = "Too many write requests.";
  details = no_details;
}

-- `get` routes.
abbrev pub is_read : Method → Bool
is_read get = true
is_read head = true
is_read post = false
is_read (other name) = false

abbrev pub is_post : Method → Bool
is_post post = true
is_post get = false
is_post head = false
is_post (other name) = false

abbrev pub is_get : Method → Bool
is_get get = true
is_get head = false
is_get post = false
is_get (other name) = false

abbrev readiness : Option String → Response Page
readiness none = reply 200 ready
readiness (some reason) = reply 503 (not_ready reason)

module _ {J : Type 0} (setup : Setup J) (env : Env) (req : HttpRequest J) where
  -- `notFoundHandler`
  abbrev pub unmatched : Handler
  unmatched = respond_with (not_found_handler (name_of req.method) req.path)

  -- The first handler that takes the method, or what comes after the router.
  abbrev pub when : Bool → Handler → Handler
  when true handler = handler
  when false handler = unmatched

  -- disputeRouter on what follows `/api/disputes`; `body` is `req.body`.
  unfoldable pub dispute_router : (body : J) → (rest : List String) → Handler
  dispute_router body [] =
      when (is_post req.method) (page opened (post_dispute setup.schemas env body))
  dispute_router body (id ∷ []) = when (is_read req.method) (
      if setup.same_segment "queue" id
      then page queue (get_queue setup.schemas env req.query)
      else page dispute (get_dispute setup.schemas env (setup.id_param id)))
  dispute_router body (id ∷ part ∷ []) =
      if is_post req.method && setup.same_segment "status" part
      then page changed (post_status setup.schemas env (setup.id_param id) body)
      else if is_post req.method && setup.same_segment "evidence" part
      then page filed (post_evidence setup.schemas env (setup.id_param id) body)
      else when (is_read req.method && setup.same_segment "evidence-requirements" part)
          (page requirements (get_requirements setup.schemas env (setup.id_param id)))
  dispute_router body (id ∷ part ∷ more ∷ rest) = unmatched

  -- complianceRouter and referenceRouter
  unfoldable pub compliance_router : (rest : List String) → Handler
  compliance_router [] = when (is_read req.method) (
      page compliance
        (get_compliance setup.compliance_query setup.rounding setup.calendar req.query))
  compliance_router (part ∷ rest) = unmatched

  unfoldable pub reference_router : (rest : List String) → Handler
  reference_router [] = unmatched
  reference_router (part ∷ []) =
      if is_read req.method && setup.same_segment "statuses" part
      then page statuses get_statuses
      else if is_read req.method && setup.same_segment "transitions" part
      then page transitions get_transitions
      else when (is_read req.method && setup.same_segment "deadline-rules" part)
          (page deadline_rules get_deadline_rules)
  reference_router (part ∷ network ∷ []) = unmatched
  reference_router (part ∷ network ∷ code ∷ []) =
      when (is_read req.method && setup.same_segment "reason-codes" part)
        (page reason_code (get_reason_code setup.platform.to_upper_case network code))
  reference_router (part ∷ network ∷ code ∷ more ∷ rest) = unmatched

  -- The three routers under `/api`, the first behind the limiter of writes.
  unfoldable pub api : (body : J) → (area : String) → (rest : List String) → Handler
  api body area rest =
      if setup.same_segment "disputes" area
      then (if not (is_get req.method) && req.is_limited
          then respond_with (refusal 429 rate_limited)
          else dispute_router body rest)
      else if setup.same_segment "compliance" area
      then compliance_router rest
      else if setup.same_segment "reference" area
      then reference_router rest
      else unmatched

  -- The routes after `express.json`.
  unfoldable pub route : (body : J) → (segments : List String) → Handler
  route body [] = unmatched
  route body (part ∷ []) =
      if is_read req.method && setup.same_segment "health" part
      then respond_with (reply 200 (health req.uptime_seconds))
      else when (is_read req.method && setup.same_segment "ready" part)
          (respond_with (readiness req.ping))
  route body (part ∷ area ∷ rest) =
      if setup.same_segment "api" part then api body area rest else unmatched

  -- `express.json`: an error that is no AppError.
  abbrev pub parsed : Option J → Handler
  parsed none = respond_with (refusal 500 internal_error)
  parsed (some body) = route body req.segments

  -- The webhook route; `toString` of no body throws a TypeError.
  abbrev pub raw : (processor : String) → Option String → Handler
  raw processor none = respond_with (refusal 500 internal_error)
  raw processor (some raw_body) = page delivered (
      post_webhook setup.platform env (record {
        processor = processor;
        raw_body = raw_body;
        timestamp = req.timestamp;
        signature = req.signature;
        webhook_id = req.webhook_id;
      }))

  -- The processor that a request to webhookRouter names.
  abbrev pub webhook_of : (segments : List String) → Option String
  webhook_of [] = none
  webhook_of (part ∷ []) = none
  webhook_of (part ∷ processor ∷ []) =
      if is_post req.method && setup.same_segment "webhooks" part then some processor else none
  webhook_of (part ∷ processor ∷ more ∷ rest) = none

  abbrev pub first_router : Option String → Handler
  first_router (some processor) = raw processor req.raw_body
  first_router none = parsed req.json

  unfoldable pub handle : Handler
  handle = first_router (webhook_of req.segments)
