-- ===== src/Routes/Queue.antt =====
-- The queue of the operators.
use chargeback_iq.Prelude.{
  ℕ, ◌≤◌, some, true, List, ◌≡◌, ◌↔◌, refl, sym, subst, inl, inr, ◌⊎◌, arith, All, In, In-keep,
  In-of_In-keep, In-map, of_In-map, map, length, keep, [], ◌∷◌,
}
use chargeback_iq.Deadlines.{deadline_state, expired}
use chargeback_iq.Schema.{Db, Env, Dispute}
use chargeback_iq.Repositories.Disputes.Queue.{
  list_open_disputes_by_deadline, list_overdue_open_disputes, is_open, is_overdue, order_by,
}
use chargeback_iq.Repositories.Disputes.Order.{
  In-order_by, In-of_In-order_by, IsSorted-order_by, In-take, In-of_In-take,
}
use chargeback_iq.Routes.{reply, serve}
use chargeback_iq.Routes.Disputes.{queue_body, Schemas, QueueRow, QueuePage, queue_row, get_queue}
use chargeback_iq.Routes.Pages.{reply-data}

All-map :
    (P : QueueRow → Type 0) (now : ℕ) (ds : List Dispute)
    → All (λ d. P (queue_row now d)) ds
    → All P (map (queue_row now) ds)
All-map P now [] a = tt
All-map P now (d ∷ ds) (h, t) = (h, All-map P now ds t)

expired_iff :
    (now : ℕ) (d : Dispute)
    → is_open d ≡ true
    → (deadline_state now d.respond_by 3 ≡ expired) ↔ (is_overdue now d ≡ true)
unfolding deadline_state
expired_iff now d o = ((λ e. ground arith), (λ e. ground arith))

module _ {J : Type 0} (z : Schemas J) (env : Env) where
  abbrev queue_page : ℕ → Db → QueuePage
  queue_page limit db = record {
    rows = map (queue_row env.now) (list_open_disputes_by_deadline limit db);
    count = length (list_open_disputes_by_deadline limit db);
    generated_at = env.now;
  }

  shows_page :
      (query : J) (limit : ℕ) (db : Db)
      → z.queue_query_schema query ≡ some limit
      → get_queue z env query db ≡ (reply 200 (queue_page limit db), db)
  unfolding get_queue queue_body serve
  shows_page query limit db q = rw q refl

  -- No open case is missed for a less urgent one: an open dispute is on the page of the queue, or the
  -- page is full of disputes whose deadlines are no later.
  pub get_queue_urgent :
      (query : J) (limit : ℕ) (db : Db) (page : QueuePage) (d : Dispute)
      → z.queue_query_schema query ≡ some limit
      → get_queue z env query db ≡ (reply 200 page, db)
      → In d db.disputes
      → is_open d ≡ true
      → In (queue_row env.now d) page.rows
        ⊎ ((page.count ≡ limit) × All (λ r. r.dispute.respond_by ≤ d.respond_by) page.rows)
  unfolding list_open_disputes_by_deadline
  get_queue_urgent query limit db page d q shown i open_one =
      let key : Dispute → ℕ = λ (x : Dispute). x.respond_by in
      let open_ones = keep is_open db.disputes in
      let same : queue_page limit db ≡ page = reply-data _ (shows_page query limit db q) shown in
      subst
        (λ (p : QueuePage).
          In (queue_row env.now d) p.rows
          ⊎ ((p.count ≡ limit) × All (λ r. r.dispute.respond_by ≤ d.respond_by) p.rows))
        same
        (elim (In-take key limit (order_by key open_ones) d (IsSorted-order_by key open_ones)
          (In-order_by key open_ones d (In-keep is_open db.disputes d i open_one))) [
            | inl j ↦ inl (In-map (queue_row env.now) _ d j)
            | inr (full, later) ↦ inr (full, All-map _ env.now _ later)
          ])

  -- A row of the queue is EXPIRED exactly when a sweep at the time of the page would take its case up.
  pub get_queue_expired :
      (query : J) (limit : ℕ) (db : Db) (page : QueuePage) (r : QueueRow)
      → z.queue_query_schema query ≡ some limit
      → get_queue z env query db ≡ (reply 200 page, db)
      → In r page.rows
      → (r.deadline_state ≡ expired) ↔ In r.dispute (list_overdue_open_disputes env.now db)
  unfolding list_open_disputes_by_deadline list_overdue_open_disputes
  get_queue_expired query limit db page r q shown i =
      let key : Dispute → ℕ = λ (x : Dispute). x.respond_by in
      let same : queue_page limit db ≡ page = reply-data _ (shows_page query limit db q) shown in
      let (d, j, row) =
        of_In-map (queue_row env.now) (list_open_disputes_by_deadline limit db) r
          (subst (λ (p : QueuePage). In r p.rows) (sym same) i) in
      let (k, open_one) =
        In-of_In-keep is_open db.disputes d
          (In-of_In-order_by key _ d (In-of_In-take key limit _ d j)) in
      let iff = expired_iff env.now d open_one in
      subst
        (λ (x : QueueRow).
          (x.deadline_state ≡ expired) ↔ In x.dispute (list_overdue_open_disputes env.now db))
        (sym row)
        (
          (λ e. In-order_by key _ d (In-keep (is_overdue env.now) db.disputes d k (iff.0 e))),
          (λ l.
              iff.1
                (In-of_In-keep (is_overdue env.now) db.disputes d (In-of_In-order_by key _ d l)).1),
        )
