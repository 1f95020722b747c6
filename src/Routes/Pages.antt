-- ===== src/Routes/Pages.antt =====
-- What a page that was answered with 200 shows.
use chargeback_iq.Prelude.{ℕ, String, Option, none, some, ◌≡◌, refl, sym, ap, ◌∙◌}
use chargeback_iq.Errors.{Thrown, app, database}
use chargeback_iq.Schema.{Db, Env}
use chargeback_iq.Repositories.Disputes.{DisputeDetails, find_dispute_by_id}
use chargeback_iq.Repositories.Disputes.Queue.{list_events, list_evidence}
use chargeback_iq.Repositories.Reference.{list_status_transitions}
use chargeback_iq.Services.DisputeService.{dispute_not_found}
use chargeback_iq.Routes.{Response, reply, serve, error_handler}
use chargeback_iq.Routes.Disputes.{
  dispute_body, Schemas, DisputePage, available_actions, dispute_page, get_dispute,
}

-- Equal responses with data have equal data.
pub reply-data :
    {A : Type 0} {n m : ℕ} {a b : A} {s t : Db} (u : Response A × Db)
    → u ≡ (reply n a, s)
    → u ≡ (reply m b, t)
    → a ≡ b
reply-data u h k = cc

pub refusal≢reply :
    {A : Type 0} {n : ℕ} {a : A} {s t : Db} (x : Thrown) (u : Response A × Db)
    → u ≡ (reply n a, t)
    → u ≡ (error_handler x, s)
    → ⊥
unfolding error_handler
refusal≢reply (app e) u h k = cc
refusal≢reply (database code) u h k = cc

module _ {J : Type 0} (z : Schemas J) (env : Env) where
  -- What the page of a dispute shows.
  pub page_shows :
      (params : J) (id : String) (db db' : Db) (page : DisputePage)
      → z.uuid_param params ≡ some id
      → get_dispute z env params db ≡ (reply 200 page, db')
      → (find_dispute_by_id id db ≡ some page.dispute)
        × (page.available_actions
            ≡ available_actions page.dispute.dispute.status_code db.transitions)
  unfolding get_dispute dispute_body serve list_status_transitions
  page_shows params id db db' page u h = of_row (find_dispute_by_id id db) refl
    where
      of_row :
          (o : Option DisputeDetails)
          → find_dispute_by_id id db ≡ o
          → (find_dispute_by_id id db ≡ some page.dispute)
            × (page.available_actions
                ≡ available_actions page.dispute.dispute.status_code db.transitions)
      of_row none e =
          let missing : get_dispute z env params db
              ≡ (error_handler (app (dispute_not_found id)), db) =
            rw (u, e) refl in
          absurd (refusal≢reply (app (dispute_not_found id)) _ h missing)
      of_row (some d) e =
          let shown : get_dispute z env params db ≡ (
            reply 200 (
                dispute_page env.now d (list_events d.dispute.id db) (list_evidence d.dispute.id db)
                  db.transitions),
            db,
          ) =
            rw (u, e) refl in
          let same : dispute_page env.now d (list_events d.dispute.id db)
                (list_evidence d.dispute.id db) db.transitions
              ≡ page =
            reply-data _ shown h in
          (
            e ∙ ap (λ (p : DisputePage). some p.dispute) same,
            sym (ap (λ (p : DisputePage). p.available_actions) same)
                ∙ ap
                    (λ (p : DisputePage).
                      available_actions p.dispute.dispute.status_code db.transitions)
                    same,
          )
