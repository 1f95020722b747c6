-- ===== src/Services/Sweep/Laws.antt =====
-- The sweep of overdue cases ends, counts every case once, and touches no other case.
use chargeback_iq.Prelude.{
  ℕ, suc, ◌+◌, true, false, List, [], ◌∷◌, ◌≡◌, refl, sym, ap, subst, ◌∙◌, arith, ◌==◌, length, In,
  keep, In-of_In-keep, map, In-map, inl, inr, if◌then◌else◌, ==_ne,
}
use chargeback_iq.Schema.{Db, Env, Dispute}
use chargeback_iq.Tx.{Outcome, returned, threw, with_transaction}
use chargeback_iq.Tx.Laws.{SameTables}
use chargeback_iq.Repositories.Disputes.{is_expected, with_status}
use chargeback_iq.Repositories.Disputes.Queue.{list_overdue_open_disputes, is_overdue}
use chargeback_iq.Repositories.Disputes.Order.{In-of_In-order_by}
use chargeback_iq.Services.DisputeService.{ChangeInput, change_status}
use chargeback_iq.Services.DisputeService.ChangeStatus.{
  change_status-IsChanged, change_status-eq-threw, closes_at,
}
use chargeback_iq.Services.Sweep.{
  Pushed, expired, skipped, expiry_of, code_of, expire_one, expire_each, expired_of, skipped_of,
  SweepResult, expire_overdue_disputes,
}

module _ (env : Env) (P : Db → Type 0)
    (same : (db db' : Db) → SameTables db db' → P db → P db') where
  -- One round returns, and keeps what `changeStatus` and a rollback keep.
  expire_one_returns :
      (d : Dispute) (db : Db)
      → ((u : Dispute) (db' : Db) → change_status env (expiry_of d) db ≡ returned u db' → P db')
      → P db
      → (p : Pushed) × (db' : Db) × (expire_one env d db ≡ returned p db') × P db'
  unfolding expire_one
  expire_one_returns d db moves p = ended (change_status env (expiry_of d) db) refl
    where
      ended :
          (o : Outcome Dispute)
          → change_status env (expiry_of d) db ≡ o
          → (q : Pushed) × (db' : Db) × (expire_one env d db ≡ returned q db') × P db'
      ended (returned u db') e = (expired u.id, db', ground arith, moves u db' e)
      ended (threw x db') e = (
        skipped (record { id = d.id; status = d.status_code; reason = code_of x }),
        db',
        ground arith,
        same db db' (change_status-eq-threw env (expiry_of d) db x db' e) p,
      )

  -- The loop returns with one entry for each case.
  pub expire_each_returns :
      (ds : List Dispute) (db : Db)
      → ((d : Dispute) (u : Dispute) (db db' : Db)
          → In d ds
          → P db
          → change_status env (expiry_of d) db ≡ returned u db'
          → P db')
      → P db
      → (ps : List Pushed) × (db' : Db) × (expire_each env ds db ≡ returned ps db')
        × (length ps ≡ length ds)
        × P db'
  unfolding expire_each
  expire_each_returns [] db moves p = ([], db, refl, refl, p)
  expire_each_returns (d ∷ ds) db moves p =
      let (one, mid, e1, p1) =
        expire_one_returns d db (λ u db' e. moves d u db db' (inl refl) p e) p in
      let (others, last, e2, same_length, p2) =
        expire_each_returns ds mid (λ x u a b i q e. moves x u a b (inr i) q e) p1 in
      (one ∷ others, last, ground arith, ap suc same_length, p2)

length-pushed : (ps : List Pushed) → length (expired_of ps) + length (skipped_of ps) ≡ length ps
length-pushed [] = omega arith
length-pushed (expired id ∷ ps) = omega (arith, length-pushed ps)
length-pushed (skipped s ∷ ps) = omega (arith, length-pushed ps)

-- The cases of the sweep are rows that are open and overdue.
pub In-list_overdue :
    (now : ℕ) (db : Db) (d : Dispute)
    → In d (list_overdue_open_disputes now db)
    → In d db.disputes × (is_overdue now d ≡ true)
unfolding list_overdue_open_disputes
In-list_overdue now db d h =
    In-of_In-keep (is_overdue now) db.disputes d
      (In-of_In-order_by _ (keep (is_overdue now) db.disputes) d h)

-- A change of another dispute leaves a row alone.
change_status-In :
    (env : Env) (input : ChangeInput) (db : Db) (u : Dispute) (db' : Db) (d : Dispute)
    → (d.id == input.dispute_id) ≡ false
    → change_status env input db ≡ returned u db'
    → In d db.disputes
    → In d db'.disputes
change_status-In env input db u db' d other h i =
    let c = change_status-IsChanged env input db u db' h in
    let step : Dispute → Dispute = λ (x : Dispute).
      if is_expected input.dispute_id c.current.status_code x
      then with_status env input.to_status (closes_at env input db) x
      else x in
    let kept : step d ≡ d = ground arith in
    subst (λ (s : Db). In d s.disputes) (sym c.state)
      (subst (λ (x : Dispute). In x (map step db.disputes)) kept (In-map step db.disputes d i))

-- Ids are the primary key of the disputes.
abbrev pub HasUniqueIds : Db → Type 0
HasUniqueIds db = (d e : Dispute) → In d db.disputes → In e db.disputes → d.id ≡ e.id → d ≡ e

-- The sweep never throws: it returns, with every overdue open case counted once as expired or
-- skipped. Every dispute that was not open and overdue is there unchanged.
pub expire_overdue_returns :
    (env : Env) (now : ℕ) (db : Db)
    → HasUniqueIds db
    → (r : SweepResult) × (db' : Db) × (expire_overdue_disputes env now db ≡ returned r db')
      × (r.checked ≡ length r.expired + length r.skipped)
      × (r.checked ≡ length (list_overdue_open_disputes now db))
      × ((d : Dispute) → In d db.disputes → is_overdue now d ≡ false → In d db'.disputes)
unfolding expire_overdue_disputes with_transaction
expire_overdue_returns env now db unique =
    let overdue = list_overdue_open_disputes now db in
    let (ps, db', e, same_length, kept) =
      expire_each_returns env
        (λ (s : Db). (d : Dispute) → In d db.disputes → is_overdue now d ≡ false → In d s.disputes)
        (λ s s' same keep d i n. subst (λ (x : Db). In d x.disputes) (sym same.2) (keep d i n))
        overdue db
        (λ x u s s' i keep h d j n.
          change_status-In env (expiry_of x) s u s' d (other x d i j n) h (keep d j n))
        (λ d i n. i) in
    (
      record { expired = expired_of ps; skipped = skipped_of ps; checked = length overdue },
      db',
      ground arith,
      sym (length-pushed ps ∙ same_length),
      refl,
      kept,
    )
  where
    other :
        (x d : Dispute)
        → In x (list_overdue_open_disputes now db)
        → In d db.disputes
        → is_overdue now d ≡ false
        → (d.id == x.id) ≡ false
    other x d i j n =
        let (k, late) = In-list_overdue now db x i in
        ==_ne d.id x.id (λ e. cc (ap (is_overdue now) (unique d x j k e)))
