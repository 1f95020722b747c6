-- ===== src/Services/Sweep/Liveness.antt =====
-- The sweep gets its work done: an overdue case that may expire does expire, whatever becomes of the
-- other cases of the sweep.
use chargeback_iq.Prelude.{
  ℕ, some, true, List, [], ◌∷◌, ◌≡◌, refl, sym, ap, subst, arith, inl, inr, dec_text, ==_refl,
  ==_ne, find, In, In-keep,
}
use chargeback_iq.Schema.{Db, Env, Dispute}
use chargeback_iq.Tx.{returned, with_transaction}
use chargeback_iq.Tx.Laws.{bind-eq-returned, returned-value, returned-state}
use chargeback_iq.Repositories.Disputes.{has_id}
use chargeback_iq.Repositories.Disputes.Queue.{list_overdue_open_disputes, is_overdue}
use chargeback_iq.Services.Sweep.{expire_each, SweepResult, expire_overdue_disputes}
use chargeback_iq.Services.Sweep.Fresh.{HasFreshIds, CanExpire}
use chargeback_iq.Services.Sweep.Laws.{HasUniqueIds, In-list_overdue, expire_overdue_returns}
use chargeback_iq.Repositories.Disputes.Order.{In-order_by}
use chargeback_iq.Services.Sweep.Rounds.{HasExpired, expires-Waits}

-- The row with an id, where ids are unique.
find_only :
    (ds : List Dispute) (d : Dispute)
    → In d ds
    → ((x : Dispute) → In x ds → x.id ≡ d.id → x ≡ d)
    → find (has_id d.id) ds ≡ some d
find_only [] d i only = elim i [ ]
find_only (x ∷ xs) d i only = at (dec_text x.id d.id) (find_only xs d)
  where
    at :
        Dec (x.id ≡ d.id)
        → (In d xs
            → ((y : Dispute) → In y xs → y.id ≡ d.id → y ≡ d)
            → find (has_id d.id) xs ≡ some d)
        → find (has_id d.id) (x ∷ xs) ≡ some d
    at (yes same) rest = ground (arith, only x (inl refl) same, same, ==_refl d.id)
    at (no other) rest = elim i [
      | inl e ↦ absurd (other (ap (λ (y : Dispute). y.id) (sym e)))
      | inr j ↦ ground (arith, rest j (λ y k. only y (inr k)), ==_ne x.id d.id other)
    ]

-- A case that is open and overdue, and that may expire, is expired by the sweep: the sweep returns,
-- names the case among the expired, and leaves it EXPIRED, whatever the other cases of the sweep come
-- to. Ids of disputes are unique, and those that the database draws are fresh.
pub expire_overdue_expires :
    (env : Env) (now : ℕ) (db : Db) (d : Dispute)
    → HasUniqueIds db
    → HasFreshIds env db
    → In d db.disputes
    → is_overdue now d ≡ true
    → CanExpire db d
    → (r : SweepResult) × (db' : Db) × (expire_overdue_disputes env now db ≡ returned r db')
      × In d.id r.expired
      × HasExpired db' d.id
unfolding list_overdue_open_disputes expire_overdue_disputes with_transaction
expire_overdue_expires env now db d unique fresh i late can =
    let (r, db', e, counted, all, kept) = expire_overdue_returns env now db unique in
    let (found, now_expired) = of_sweep r db' e in (r, db', e, found, now_expired)
  where
    only : (x : Dispute) → In x db.disputes → x.id ≡ d.id → x ≡ d
    only x j same = unique x d j i same

    listed : In d (list_overdue_open_disputes now db)
    listed = In-order_by _ _ d (In-keep (is_overdue now) db.disputes d i late)

    of_sweep :
        (r : SweepResult) (db' : Db)
        → expire_overdue_disputes env now db ≡ returned r db'
        → In d.id r.expired × HasExpired db' d.id
    of_sweep r db' e =
        let (ps, last, h, done) =
          bind-eq-returned (expire_each env (list_overdue_open_disputes now db)) _ db r db' e in
        let (named, now_expired) =
          expires-Waits env (list_overdue_open_disputes now db) d db ps last listed
            (λ x j. only x (In-list_overdue now db x j).0) h
            (record { fresh = fresh; can = can; found = find_only db.disputes d i only }) in
        (
          subst (λ (v : SweepResult). In d.id v.expired) (sym (returned-value done)) named,
          subst (λ t. HasExpired t d.id) (sym (returned-state done)) now_expired,
        )
