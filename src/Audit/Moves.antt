-- ===== src/Audit/Moves.antt =====
-- `changeStatus` keeps the audit trail.
use chargeback_iq.Prelude.{
  some, true, ◌≡◌, subst, sym, ap, ◌∙◌, arith, find, ◌==◌, ==_iff, In, of_In-map, find-eq-some,
  if◌then◌else◌,
}
use chargeback_iq.Lifecycle.{Transition, find_transition}
use chargeback_iq.Lifecycle.Laws.{find_transition-eq-some}
use chargeback_iq.Schema.{Db, Env, Dispute}
use chargeback_iq.Repositories.Disputes.{has_id, is_expected, with_status}
use chargeback_iq.Services.DisputeService.{ChangeInput, move_of}
use chargeback_iq.Services.DisputeService.ChangeStatus.{closes_at, after_change}
use chargeback_iq.Audit.{last_status, IsTrailed, IsLegal, IsClosedRight, IsSound, IsAudited}

module _ (env : Env) (input : ChangeInput) (db : Db) (current : Dispute)
    (found : find (has_id input.dispute_id) db.disputes ≡ some current) where
  -- The row that was found.
  current-In : In current db.disputes × ((current.id == input.dispute_id) ≡ true)
  current-In = find-eq-some (has_id input.dispute_id) db.disputes current found

  -- The row that an old one has become.
  abbrev next_row : Dispute → Dispute
  next_row d =
      if is_expected input.dispute_id current.status_code d
      then with_status env input.to_status (closes_at env input db) d
      else d

  IsTrailed-next :
      IsAudited db
      → (d : Dispute) → In d db.disputes
      → IsTrailed (after_change env input db current).events (next_row d)
  IsTrailed-next a d i = ground (arith, a.trailed d i, a.trailed current current-In.0, current-In.1)

  closed_next :
      IsSound db
      → IsAudited db
      → (t : Transition) → In t db.transitions
      → t.from_status ≡ current.status_code
      → (d : Dispute) → In d db.disputes
      → IsClosedRight db.statuses (next_row d)
  closed_next s a t j e d i = ground (arith, a.closed d i, s.no_exit t j)

  -- The recorded change is legal.
  IsLegal-next :
      (t : Transition)
      → find_transition db.transitions (move_of input current) ≡ some t
      → IsAudited db
      → IsLegal db.transitions (after_change env input db current).events
  IsLegal-next t h a =
      let (listed, states) = find_transition-eq-some db.transitions (move_of input current) t h in
      (
        λ _. record {
          row = t;
          listed = listed;
          from = ap some (sym states.from);
          to = ap some (sym states.to);
          by = sym states.by;
          continues =
              ap (λ id. last_status id db.events) (sym ((==_iff _ _).0 current-In.1))
              ∙ a.trailed current current-In.0;
        },
        a.legal,
      )

  -- A change keeps the audit trail: after it the newest event of every dispute still states the
  -- dispute's status, every recorded change is a row of the table that leaves from the status before
  -- it, and exactly the disputes in a terminal status are closed.
  pub after_change-IsAudited :
      (t : Transition)
      → find_transition db.transitions (move_of input current) ≡ some t
      → IsSound db
      → IsAudited db
      → IsAudited (after_change env input db current)
  after_change-IsAudited t h s a =
      let (listed, states) = find_transition-eq-some db.transitions (move_of input current) t h in
      record {
        trailed = λ d i.
            let (old, j, e) = of_In-map next_row db.disputes d i in
            subst (IsTrailed (after_change env input db current).events) (sym e)
              (IsTrailed-next a old j);
        legal = IsLegal-next t h a;
        closed = λ d i.
            let (old, j, e) = of_In-map next_row db.disputes d i in
            subst (IsClosedRight db.statuses) (sym e) (closed_next s a t listed states.from old j);
      }
