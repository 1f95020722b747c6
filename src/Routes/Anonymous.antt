-- ===== src/Routes/Anonymous.antt =====
-- A request for a move that names no operator. changeStatusSchema lets `actorId` be absent, while the log
-- refuses an operator's event without one.
use chargeback_iq.Prelude.{◌≤◌, String, none, some, true, ◌≡◌, refl, sym, subst, In, any, List}
use chargeback_iq.Lifecycle.Laws.{HasUniqueMoves}
use chargeback_iq.Schema.{Db, Env}
use chargeback_iq.Tx.{rolled_back}
use chargeback_iq.Tx.Laws.{SameTables}
use chargeback_iq.Repositories.Disputes.{has_code, count_evidence, draw_event}
use chargeback_iq.Repositories.Disputes.Details.{find_dispute_by_id-eq-some}
use chargeback_iq.Repositories.Disputes.Laws.{event_violation_operator}
use chargeback_iq.Services.DisputeService.ChangeStatus.{with_moved}
use chargeback_iq.Services.DisputeService.Outcomes.{change_unrecorded}
use chargeback_iq.Routes.{refusal, reply, serve, error_handler, internal_error}
use chargeback_iq.Routes.Disputes.{
  Schemas, StatusBody, change_input, DisputePage, Action, get_dispute, post_status,
}
use chargeback_iq.Routes.Actions.{offered_allowed}
use chargeback_iq.Routes.Pages.{page_shows}

module _ {J : Type 0} (z : Schemas J) (env : Env) where
  -- A request without `actorId` for an action that the page of the dispute offers, with the evidence that
  -- the action asks for, is answered with 500 INTERNAL_ERROR, and every table is as it was: the move is
  -- made and undone, since the log wants an operator. The table of moves has its primary key, and the
  -- status of the action is in the table of statuses.
  pub post_status_anonymous :
      (params body : J) (id : String) (b : StatusBody) (db : Db) (page : DisputePage) (a : Action)
      → z.uuid_param params ≡ some id
      → z.change_status_schema body ≡ some b
      → b.actor_id ≡ none
      → get_dispute z env params db ≡ (reply 200 page, db)
      → In a page.available_actions
      → b.to_status ≡ a.to_status
      → (a.requires_evidence ≡ true → 1 ≤ count_evidence id db)
      → HasUniqueMoves db.transitions
      → any (has_code a.to_status) db.statuses ≡ true
      → (db' : Db) × (post_status z env params body db ≡ (refusal 500 internal_error, db'))
        × SameTables db db'
  unfolding post_status serve error_handler rolled_back
  post_status_anonymous params body id b db page a p q unnamed shown offered to evidence unique
        target =
      let (found, actions) = page_shows z env params id db db page p shown in
      let d = page.dispute.dispute in
      let (row, from) = find_dispute_by_id-eq-some id db page.dispute found in
      let (t, allowed) =
        offered_allowed z env id b db d a (subst (λ (xs : List Action). In a xs) actions offered) to
          evidence unique in
      let thrown =
        change_unrecorded env (change_input id b) db d row t "23514" allowed
          (subst (λ s. any (has_code s) db.statuses ≡ true) (sym to) target)
          (event_violation_operator _ _ refl unnamed) in
      (
        rolled_back db (draw_event (with_moved env (change_input id b) db d)),
        rw (p, q, thrown) refl,
        (_, _, refl),
      )
