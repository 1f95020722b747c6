-- ===== src/Routes/App/Runs.antt =====
-- The application as a whole: a request keeps what the calls behind the routes that write keep.
use chargeback_iq.Prelude.{
  String, Option, none, some, Bool, true, false, not, ◌&&◌, ◌||◌, List, [], ◌∷◌, ◌≡◌, refl, arith,
  if◌then◌else◌, inl, inr, Bool-cases,
}
use chargeback_iq.Schema.{Db, Env}
use chargeback_iq.Tx.{Outcome, returned, threw, lift}
use chargeback_iq.Tx.Keeps.{Keeps-lift, Keeps-bind, state_of}
use chargeback_iq.Services.WebhookService.{Processed}
use chargeback_iq.Services.Calls.{Reach, here, next, opening, change, evidence, webhook}
use chargeback_iq.Routes.{Response, validate_body, validate_params}
use chargeback_iq.Routes.Disputes.{
  post_dispute, post_status, post_evidence, open_input, change_input, evidence_input,
}
use chargeback_iq.Routes.Webhooks.{
  Platform, WebhookRequest, Parsed, no_json, null_value, value, or_else, deliver, handle_body,
  post_webhook, answer_delivery, new_delivery,
}
use chargeback_iq.Signature.{is_blank, buffer}
use chargeback_iq.Routes.App.{
  Setup, HttpRequest, Page, page, is_post, is_get, is_read, dispute_router, api, route, parsed, raw,
  webhook_of, first_router, handle,
}
use chargeback_iq.Routes.App.Writes.{
  is_written_path, is_write_request, ResponseKeeps, HandlerKeeps, CallsKeep, served, paged_keeps,
  responded, branches, when_keeps, queue_keeps, dispute_keeps, requirements_keeps, reference_keeps,
  compliance_router_keeps,
}

-- Which paths below `/api/disputes` are written to.
abbrev is_written_rest : (same_segment : String → String → Bool) → (rest : List String) → Bool
is_written_rest same [] = true
is_written_rest same (id ∷ []) = false
is_written_rest same (id ∷ part ∷ []) = same "status" part || same "evidence" part
is_written_rest same (id ∷ part ∷ more ∷ rest) = false

written_path :
    (same : String → String → Bool) (part area : String) (rest : List String)
    → same "api" part ≡ true
    → same "disputes" area ≡ true
    → is_written_rest same rest ≡ true
    → is_written_path same (part ∷ area ∷ rest) ≡ true
written_path same part area [] a d r = ground arith
written_path same part area (id ∷ []) a d r = cc
written_path same part area (id ∷ p ∷ []) a d r = ground arith
written_path same part area (id ∷ p ∷ more ∷ rest) a d r = cc

module _ (P : Db → Type 0) {J : Type 0} (setup : Setup J) (env : Env) (req : HttpRequest J) where
  module _ (c : CallsKeep P env) where
    open_keeps : (body : J) → ResponseKeeps P (post_dispute setup.schemas env body)
    unfolding post_dispute
    open_keeps body = served P 201 _ (
        Keeps-bind P (lift (validate_body (setup.schemas.open_dispute_schema body))) _
          (Keeps-lift P _) (λ input. c.opening (open_input input)))

    status_keeps : (params body : J) → ResponseKeeps P (post_status setup.schemas env params body)
    unfolding post_status
    status_keeps params body = served P 200 _ (
        Keeps-bind P (lift (validate_params (setup.schemas.uuid_param params))) _ (Keeps-lift P _)
          (λ id.
            Keeps-bind P (lift (validate_body (setup.schemas.change_status_schema body))) _
              (Keeps-lift P _) (λ input. c.change (change_input id input))))

    evidence_keeps :
        (params body : J) → ResponseKeeps P (post_evidence setup.schemas env params body)
    unfolding post_evidence
    evidence_keeps params body = served P 201 _ (
        Keeps-bind P (lift (validate_params (setup.schemas.uuid_param params))) _ (Keeps-lift P _)
          (λ id.
            Keeps-bind P (lift (validate_body (setup.schemas.add_evidence_schema body))) _
              (Keeps-lift P _) (λ input. c.evidence (evidence_input id input))))

    webhook_keeps : (p : Platform) (r : WebhookRequest) → ResponseKeeps P (post_webhook p env r)
    unfolding post_webhook deliver
    webhook_keeps p r = record { after = λ db q. handled db q (p.parse_json r.raw_body) }
      where
        answered : (o : Outcome Processed) → P (state_of o) → P (answer_delivery o).1
        answered (returned a db) q = q
        answered (threw e db) q = q

        delivered :
            (b : Bool) (o : Outcome Processed) (db : Db) (refused : Response _)
            → P db
            → P (state_of o)
            → P (if b then (refused, db) else answer_delivery o).1
        delivered true o db refused q k = q
        delivered false o db refused q k = answered o k

        handled : (db : Db) → P db → (v : Parsed) → P (handle_body p env r v db).1
        handled db q no_json = q
        handled db q null_value = q
        handled db q (value id type payload) =
            delivered (is_blank (or_else id r.webhook_id)) _ db _ q (
              (c.webhook (new_delivery p env r (buffer (or_else id r.webhook_id)) type payload)).at
                db q)

  dispute_router_keeps :
      (body : J) (rest : List String)
      → (is_post req.method && is_written_rest setup.same_segment rest ≡ true → CallsKeep P env)
      → HandlerKeeps P (dispute_router setup env req body rest)
  unfolding dispute_router
  dispute_router_keeps body [] w =
      when_keeps P setup env req (is_post req.method)
        (page Page.opened (post_dispute setup.schemas env body))
        (λ e. paged_keeps P Page.opened _ (open_keeps (w (ground arith)) body))
  dispute_router_keeps body (id ∷ []) w = when_keeps P setup env req (is_read req.method) _ (λ e.
      branches P (setup.same_segment "queue" id) _ _
        (λ q. paged_keeps P Page.queue _ (queue_keeps P setup env req))
        (λ q. paged_keeps P Page.dispute _ (dispute_keeps P setup env req (setup.id_param id))))
  dispute_router_keeps body (id ∷ part ∷ []) w =
      branches P (is_post req.method && setup.same_segment "status" part) _ _
        (λ e.
          paged_keeps P Page.changed _ (status_keeps (w (ground arith)) (setup.id_param id) body))
        (λ _.
          branches P (is_post req.method && setup.same_segment "evidence" part) _ _
            (λ e.
              paged_keeps P Page.filed _
                (evidence_keeps (w (ground arith)) (setup.id_param id) body))
            (λ _.
              when_keeps P setup env req
                (is_read req.method && setup.same_segment "evidence-requirements" part) _
                (λ e.
                  paged_keeps P Page.requirements _
                    (requirements_keeps P setup env req (setup.id_param id)))))
  dispute_router_keeps body (id ∷ part ∷ more ∷ rest) w = responded P _

  api_keeps :
      (body : J) (part area : String) (rest : List String)
      → setup.same_segment "api" part ≡ true
      → (is_post req.method && is_written_path setup.same_segment (part ∷ area ∷ rest) ≡ true
          → CallsKeep P env)
      → HandlerKeeps P (api setup env req body area rest)
  unfolding api
  api_keeps body part area rest a w =
      branches P (setup.same_segment "disputes" area) _ _
        (λ d.
          branches P (not (is_get req.method) && req.is_limited) _ _ (λ _. responded P _)
            (λ _.
              dispute_router_keeps body rest
                (λ r. w (ground (arith, written_path setup.same_segment part area rest a d)))))
        (λ _.
          branches P (setup.same_segment "compliance" area) _ _
            (λ _. compliance_router_keeps P setup env req rest)
            (λ _.
              branches P (setup.same_segment "reference" area) _ _
                (λ _. reference_keeps P setup env req rest) (λ _. responded P _)))

  route_keeps :
      (body : J) (segments : List String)
      → (is_post req.method && is_written_path setup.same_segment segments ≡ true → CallsKeep P env)
      → HandlerKeeps P (route setup env req body segments)
  unfolding route
  route_keeps body [] w = responded P _
  route_keeps body (part ∷ []) w =
      branches P (is_read req.method && setup.same_segment "health" part) _ _ (λ _. responded P _)
        (λ _.
          when_keeps P setup env req (is_read req.method && setup.same_segment "ready" part) _
            (λ _. responded P _))
  route_keeps body (part ∷ area ∷ rest) w =
      branches P (setup.same_segment "api" part) _ _ (λ a. api_keeps body part area rest a w)
        (λ _. responded P _)

  -- A request to the webhook route is one of those that write.
  webhook_written :
      (segments : List String) (processor : String)
      → webhook_of setup env req segments ≡ some processor
      → is_post req.method && is_written_path setup.same_segment segments ≡ true
  webhook_written [] processor e = cc
  webhook_written (part ∷ []) processor e = cc
  webhook_written (part ∷ p ∷ []) processor e =
      elim (Bool-cases (is_post req.method && setup.same_segment "webhooks" part)) [
        | inl h ↦ ground arith
        | inr h ↦
            absurd (cc (e, nothing (is_post req.method && setup.same_segment "webhooks" part) h))
      ]
    where
      nothing : (b : Bool) → b ≡ false → (if b then some p else none) ≡ none
      nothing true h = cc
      nothing false h = refl
  webhook_written (part ∷ p ∷ more ∷ rest) processor e = cc

  module _ (w : is_write_request setup req ≡ true → CallsKeep P env) where
    parsed_keeps : (json : Option J) → HandlerKeeps P (parsed setup env req json)
    parsed_keeps none = responded P _
    parsed_keeps (some body) = route_keeps body req.segments w

    raw_keeps :
        (processor : String)
        → webhook_of setup env req req.segments ≡ some processor
        → (b : Option String) → HandlerKeeps P (raw setup env req processor b)
    raw_keeps processor e none = responded P _
    raw_keeps processor e (some raw_body) =
        paged_keeps P Page.delivered _
          (webhook_keeps (w (webhook_written req.segments processor e)) setup.platform _)

    first_keeps :
        (processor : Option String)
        → webhook_of setup env req req.segments ≡ processor
        → HandlerKeeps P (first_router setup env req processor)
    first_keeps none e = parsed_keeps req.json
    first_keeps (some processor) e = raw_keeps processor e req.raw_body

    -- A request keeps `P`, if it is none of those that write or the calls behind them keep `P`.
    handle_keeps : HandlerKeeps P (handle setup env req)
    unfolding handle
    handle_keeps = first_keeps (webhook_of setup env req req.segments) refl

module _ {J : Type 0} (setup : Setup J) (env : Env) (req : HttpRequest J) (db : Db) where
  -- A request that is none of those that write leaves the database exactly as it was.
  pub handle_reads : is_write_request setup req ≡ false → (handle setup env req db).1 ≡ db
  handle_reads h =
      (handle_keeps (λ s. s ≡ db) setup env req (λ e. absurd (cc (e, h)))).after db refl

  -- A request is at most one call of the service layer.
  pub handle-Reach : Reach db (handle setup env req db).1
  handle-Reach =
      (handle_keeps (Reach db) setup env req (λ e. record {
        opening = λ input. record { at = λ s r. next r (opening env input refl) };
        change = λ input. record { at = λ s r. next r (change env input refl) };
        evidence = λ input. record { at = λ s r. next r (evidence env input refl) };
        webhook = λ input. record { at = λ s r. next r (webhook env input refl) };
      })).after
        db here
