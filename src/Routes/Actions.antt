-- ===== src/Routes/Actions.antt =====
-- The actions that the page of a dispute offers, and what becomes of a request for one.
use chargeback_iq.Prelude.{
  ◌≤◌, String, Option, none, some, true, false, List, ◌≡◌, ◌≢◌, refl, sym, ap, subst, ◌∙◌, arith,
  keep, any, find, find-eq-some, In, In-keep, In-of_In-keep, In-map, of_In-map, ◌==◌, ==_refl,
}
use chargeback_iq.Errors.{app, err, ok, invalid_transition_error}
use chargeback_iq.Lifecycle.{Transition, Move, find_transition, assert_transition}
use chargeback_iq.Lifecycle.Laws.{
  HasUniqueMoves, IsRowOf, find_transition-eq-some, find_transition-eq-none,
  assert_transition_of_found, assert_transition_of_none,
}
use chargeback_iq.Schema.{Db, Env, Dispute}
use chargeback_iq.Tx.{returned}
use chargeback_iq.Repositories.Disputes.{
  has_id, has_code, is_operator, count_evidence, event_violation, event_passes_checks,
  event_has_parents,
}
use chargeback_iq.Repositories.Disputes.Laws.{any-of_find}
use chargeback_iq.Repositories.Disputes.Details.{find_dispute_by_id-eq-some}
use chargeback_iq.Services.DisputeService.{change_status, move_of}
use chargeback_iq.Services.DisputeService.ChangeStatus.{moved, after_change, with_moved}
use chargeback_iq.Services.DisputeService.Outcomes.{change_status_outcomes, change_allowed}
use chargeback_iq.Services.DisputeService.Rows.{any-after_change}
use chargeback_iq.Services.Sweep.Fresh.{HasFreshIds, fresh_id}
use chargeback_iq.Routes.Pages.{page_shows}
use chargeback_iq.Routes.{reply, refusal, serve, error_handler, ErrorBody}
use chargeback_iq.Routes.Disputes.{
  Schemas, StatusBody, change_input, DisputePage, Action, is_action, to_action, available_actions,
  get_dispute, post_status,
}

-- With the primary key of the table, the lookup finds the row that states a move.
find_unique :
    (ts : List Transition) (m : Move) (t : Transition)
    → HasUniqueMoves ts
    → In t ts
    → IsRowOf m t
    → find_transition ts m ≡ some t
find_unique ts m t unique i states = of_lookup (find_transition ts m) refl
  where
    of_lookup : (o : Option Transition) → find_transition ts m ≡ o → find_transition ts m ≡ some t
    of_lookup none e = absurd ((find_transition-eq-none ts m).0 e t i states)
    of_lookup (some u) e =
        let (j, same) = find_transition-eq-some ts m u e in
        e ∙ ap some (unique m u t j i same states)

module _ {J : Type 0} (z : Schemas J) (env : Env) where
  -- A request for an action that the page of a dispute offers.
  pub record IsRequest (params body : J) (db : Db) (page : DisputePage) (a : Action) : Type 0 where
    pub id : String
    pub input : StatusBody
    pub operator : String
    pub accepted_id : z.uuid_param params ≡ some id
    pub accepted_body : z.change_status_schema body ≡ some input
    pub shown : get_dispute z env params db ≡ (reply 200 page, db)
    pub offered : In a page.available_actions
    pub target : input.to_status ≡ a.to_status
    pub actor : input.actor_id ≡ some operator
    pub known : any (is_operator operator) db.operators ≡ true

  -- The row of the table behind an action that is offered.
  IsRowOf-action :
      (db : Db) (status_code : String) (a : Action)
      → In a (available_actions status_code db.transitions)
      → (t : Transition) × In t db.transitions
        × IsRowOf (record { from = status_code; to = a.to_status; triggered_by = "OPERATOR" }) t
        × (t.requires_evidence ≡ a.requires_evidence)
  unfolding available_actions
  IsRowOf-action db status_code a i =
      let (t, j, same) = of_In-map to_action (keep (is_action status_code) db.transitions) a i in
      let (k, e) = In-of_In-keep (is_action status_code) db.transitions t j in
      (
        t,
        k,
        record {
          from = ground arith;
          to = ap (λ (x : Action). x.to_status) (sym same);
          by = ground arith;
        },
        ap (λ (x : Action). x.requires_evidence) (sym same),
      )

  -- The check accepts an action that is offered, with its evidence.
  pub offered_allowed :
      (id : String) (b : StatusBody) (db : Db) (d : Dispute) (a : Action)
      → In a (available_actions d.status_code db.transitions)
      → b.to_status ≡ a.to_status
      → (a.requires_evidence ≡ true → 1 ≤ count_evidence id db)
      → HasUniqueMoves db.transitions
      → (t : Transition) × (assert_transition db.transitions
            (move_of (change_input id b) d)
            (count_evidence id db)
          ≡ ok t)
  offered_allowed id b db d a offered to evidence unique =
      let (t, listed, states, asks) = IsRowOf-action db d.status_code a offered in
      (
        t,
        assert_transition_of_found db.transitions _ t _
            (subst
              (λ s.
                find_transition db.transitions
                  (record { from = d.status_code; to = s; triggered_by = "OPERATOR" })
                ≡ some t)
              (sym to) (find_unique db.transitions _ t unique listed states))
            (λ e. evidence (sym asks ∙ e)),
      )

  -- A move of an operator that the table has is made, where the ids are fresh.
  operator_moves :
      (id operator : String) (b : StatusBody) (db : Db) (d : Dispute) (t : Transition)
      → find (has_id id) db.disputes ≡ some d
      → any (has_code d.status_code) db.statuses ≡ true
      → any (has_code b.to_status) db.statuses ≡ true
      → b.actor_id ≡ some operator
      → any (is_operator operator) db.operators ≡ true
      → HasFreshIds env db
      → assert_transition db.transitions (move_of (change_input id b) d) (count_evidence id db)
        ≡ ok t
      → change_status env (change_input id b) db
        ≡ returned (moved env (change_input id b) db d) (after_change env (change_input id b) db d)
  unfolding event_violation event_passes_checks event_has_parents
  operator_moves id operator b db d t found from to actor known fresh allowed =
      let there : any (has_id id) (with_moved env (change_input id b) db d).disputes ≡ true =
        any-after_change env (change_input id b) db d id ∙ any-of_find id db.disputes d found in
      let unused : any (λ e. e.id == env.random_uuid db.drawn) db.events ≡ false =
        fresh_id env db.events db.drawn fresh.different fresh.drawn in
      change_allowed env (change_input id b) db d found t allowed to
        (ground (arith, there, unused, from, to, actor, known, ==_refl "OPERATOR"))

  -- A request for an action that the page of the dispute offers is answered with 200 and the dispute in
  -- the status of the action, where evidence is on file if the action asks for it. The request names an
  -- operator that exists, the table of moves has its primary key, the status of the action is in the
  -- table of statuses, and the ids that the database draws are fresh.
  pub post_status_offered :
      (params body : J) (db : Db) (page : DisputePage) (a : Action)
      (r : IsRequest params body db page a)
      → HasUniqueMoves db.transitions
      → HasFreshIds env db
      → any (has_code a.to_status) db.statuses ≡ true
      → (a.requires_evidence ≡ true → 1 ≤ count_evidence r.id db)
      → (u : Dispute) × (db' : Db) × (post_status z env params body db ≡ (reply 200 u, db'))
        × (u.id ≡ r.id)
        × (u.status_code ≡ a.to_status)
  unfolding post_status serve
  post_status_offered params body db page a r unique fresh target evidence =
      let (found, actions) = page_shows z env params r.id db db page r.accepted_id r.shown in
      let d = page.dispute.dispute in
      let (row, from) = find_dispute_by_id-eq-some r.id db page.dispute found in
      let (t, allowed) =
        offered_allowed r.id r.input db d a
          (subst (λ (xs : List Action). In a xs) actions r.offered) r.target evidence unique in
      let moves =
        operator_moves r.id r.operator r.input db d t row from
          (subst (λ to. any (has_code to) db.statuses ≡ true) (sym r.target) target) r.actor r.known
          fresh allowed in
      let (own, row_id) = find-eq-some (has_id r.id) db.disputes d row in
      (
        moved env (change_input r.id r.input) db d,
        after_change env (change_input r.id r.input) db d,
        rw (r.accepted_id, r.accepted_body, moves) refl,
        ground (arith, row_id),
        ground (arith, r.target),
      )

  -- A request for a move that the page of the dispute does not offer is answered with 409
  -- INVALID_TRANSITION, and the state is as it was.
  pub post_status_not_offered :
      (params body : J) (id : String) (b : StatusBody) (db : Db) (page : DisputePage)
      → z.uuid_param params ≡ some id
      → z.change_status_schema body ≡ some b
      → get_dispute z env params db ≡ (reply 200 page, db)
      → ((a : Action) → In a page.available_actions → b.to_status ≢ a.to_status)
      → (e : ErrorBody) × (post_status z env params body db ≡ (refusal 409 e, db))
        × (e.code ≡ "INVALID_TRANSITION")
  unfolding post_status serve available_actions error_handler
  post_status_not_offered params body id b db page p q shown other =
      let (found, actions) = page_shows z env params id db db page p shown in
      let d = page.dispute.dispute in
      let (row, from) = find_dispute_by_id-eq-some id db page.dispute found in
      let m : Move = move_of (change_input id b) d in
      let unknown : find_transition db.transitions m ≡ none =
        (find_transition-eq-none db.transitions m).1 (λ t i states.
          other (to_action t)
            (subst (λ (xs : List Action). In (to_action t) xs) (sym actions)
              (In-map to_action _ t
                (In-keep (is_action d.status_code) db.transitions t i (offers d t states))))
            (sym states.to)) in
      let refused : assert_transition db.transitions m (count_evidence id db)
          ≡ err (app (invalid_transition_error d.status_code b.to_status "OPERATOR")) =
        assert_transition_of_none db.transitions m _ unknown in
      let thrown = ((change_status_outcomes env (change_input id b) db).1 d row).0 _ refused in
      let error = invalid_transition_error d.status_code b.to_status "OPERATOR" in
      (
        record { code = error.code; message = error.message; details = error.details },
        rw (p, q, thrown) refl,
        refl,
      )
    where
      offers :
          (d : Dispute) (t : Transition)
          → IsRowOf (move_of (change_input id b) d) t
          → is_action d.status_code t ≡ true
      offers d t states =
          ground (arith, states.from, states.by, ==_refl d.status_code, ==_refl "OPERATOR")
