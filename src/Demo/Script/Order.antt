-- ===== src/Demo/Script/Order.antt =====
-- The audit trail along the script for the demo data.
use chargeback_iq.Prelude.{
  ℕ, String, none, some, Bool, true, false, not, List, [], ◌∷◌, ◌≡◌, refl, sym, ap, subst, ◌∙◌, inl,
  inr, if◌then◌else◌, ◌==◌, ==_iff, Bool-cases, keep, of_In-map,
}
use chargeback_iq.Lifecycle.{Transition}
use chargeback_iq.Schema.{Db, Env, Dispute, Event, Merchant, Operator, Payment, Volume}
use chargeback_iq.Tx.Keeps.{state_of}
use chargeback_iq.Repositories.Disputes.{has_id, replace}
use chargeback_iq.Repositories.Volumes.{Calendar}
use chargeback_iq.Audit.{last_status, IsTrailed, IsLegal, IsClosedRight}
use chargeback_iq.Audit.Runs.{IsInOrder, IsInOrder-IsPreserved}
use chargeback_iq.Demo.Wipe.{is_scoped}
use chargeback_iq.Demo.Wipe.Ends.{wiped, passed}
use chargeback_iq.Demo.Rows.{with_respond_by}
use chargeback_iq.Demo.Script.{run}
use chargeback_iq.Demo.Script.Laws.{IsSeedable}
use chargeback_iq.Demo.Script.Runs.{Keeps-run}

-- The tables that the audit trail does not mention.
others_changed :
    (db : Db) (ms : List Merchant) (os : List Operator) (ts : List Payment) (vs : List Volume)
    → IsInOrder db
    → IsInOrder (record db { merchants = ms; operators = os; payments = ts; volumes = vs })
others_changed db ms os ts vs o = record {
  sound = record { no_exit = o.sound.no_exit; opens = o.sound.opens };
  audited = record {
    trailed = o.audited.trailed;
    legal = o.audited.legal;
    closed = o.audited.closed;
  };
}

module _ (selected : String → Bool) where
  other_id : (a b : String) → selected a ≡ true → selected b ≡ false → (a == b) ≡ false
  other_id a b s h = elim (Bool-cases (a == b)) [
    | inl e ↦ absurd (cc (s, h, (==_iff a b).0 e))
    | inr e ↦ e
  ]

  -- The log without the events of other disputes has the same last word on a dispute.
  last_status-keep :
      (id : String) (es : List Event)
      → selected id ≡ false
      → last_status id (keep (λ e. not (selected e.dispute_id)) es) ≡ last_status id es
  last_status-keep id [] h = refl
  last_status-keep id (e ∷ es) h = elim (Bool-cases (selected e.dispute_id)) [
    | inl s ↦ rw (s, other_id e.dispute_id id s h) (last_status-keep id es h)
    | inr s ↦ rw (s) (
        ap
          (λ last.
            if e.dispute_id == id then elim e.to_status [ some t ↦ some t | none ↦ last ] else last)
          (last_status-keep id es h))
  ]

  IsLegal-keep :
      (ts : List Transition) (es : List Event)
      → IsLegal ts es
      → IsLegal ts (keep (λ e. not (selected e.dispute_id)) es)
  IsLegal-keep ts [] l = tt
  IsLegal-keep ts (e ∷ es) (l, ls) = elim (Bool-cases (selected e.dispute_id)) [
    | inl s ↦ rw (s) (IsLegal-keep ts es ls)
    | inr s ↦ rw (s) (
      (λ c. record {
        row = (l c).row;
        listed = (l c).listed;
        from = (l c).from;
        to = (l c).to;
        by = (l c).by;
        continues = last_status-keep e.dispute_id es s ∙ (l c).continues;
      }),
      IsLegal-keep ts es ls,
    )
  ]

wiped-IsInOrder : (db : Db) → IsInOrder db → IsInOrder (wiped db)
wiped-IsInOrder db o = record {
  sound = record { no_exit = o.sound.no_exit; opens = o.sound.opens };
  audited = record {
    trailed = λ d i.
        let (j, h) = passed (λ (x : Dispute). is_scoped db x.id) db.disputes d i in
        last_status-keep (is_scoped db) d.id db.events h ∙ o.audited.trailed d j;
    legal = IsLegal-keep (is_scoped db) db.transitions db.events o.audited.legal;
    closed =
        λ d i. o.audited.closed d (passed (λ (x : Dispute). is_scoped db x.id) db.disputes d i).0;
  };
}

-- A later response time is no part of the audit trail.
due-IsInOrder :
    (db : Db) (id : String) (t : ℕ)
    → IsInOrder db
    → IsInOrder (record db { disputes = replace (has_id id) (with_respond_by t) db.disputes })
due-IsInOrder db id t o = record {
  sound = record { no_exit = o.sound.no_exit; opens = o.sound.opens };
  audited = record {
    trailed = λ d i.
        let (x, j, e) = of_In-map due db.disputes d i in
        subst (IsTrailed db.events) (sym e) (trailed x (o.audited.trailed x j));
    legal = o.audited.legal;
    closed = λ d i.
        let (x, j, e) = of_In-map due db.disputes d i in
        subst (IsClosedRight db.statuses) (sym e) (closed x (o.audited.closed x j));
  };
}
  where
    due : Dispute → Dispute
    due d = if has_id id d then with_respond_by t d else d

    trailed : (x : Dispute) → IsTrailed db.events x → IsTrailed db.events (due x)
    trailed x h = elim (Bool-cases (has_id id x)) [ inl e ↦ rw (e) h | inr e ↦ rw (e) h ]

    closed : (x : Dispute) → IsClosedRight db.statuses x → IsClosedRight db.statuses (due x)
    closed x h = elim (Bool-cases (has_id id x)) [ inl e ↦ rw (e) h | inr e ↦ rw (e) h ]

IsInOrder-IsSeedable : IsSeedable IsInOrder
IsInOrder-IsSeedable = record {
  calls = IsInOrder-IsPreserved;
  cleared = wiped-IsInOrder;
  merchants = λ db ms. others_changed db ms db.operators db.payments db.volumes;
  operators = λ db os. others_changed db db.merchants os db.payments db.volumes;
  payments = λ db ts. others_changed db db.merchants db.operators ts db.volumes;
  volumes = λ db vs. others_changed db db.merchants db.operators db.payments vs;
  due = due-IsInOrder;
}

-- However the script ends, it leaves a state in order where it found one.
pub run-IsInOrder :
    (cal : Calendar) (lower : String → String) (env : Env) (now : ℕ) (db : Db)
    → IsInOrder db
    → IsInOrder (state_of (run cal lower env now db))
run-IsInOrder cal lower env now db p =
    (Keeps-run IsInOrder IsInOrder-IsSeedable env now cal lower).at db p
