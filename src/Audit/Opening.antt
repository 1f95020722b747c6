-- ===== src/Audit/Opening.antt =====
-- `openDispute`: the deadline that it stores, and that it keeps the audit trail.
use chargeback_iq.Prelude.{
  String, none, some, false, ◌≡◌, subst, ◌⊎◌, inl, inr, sym, arith, any, ==_iff, In, any-eq-false,
  or_default, dec_text,
}
use chargeback_iq.Errors.{ok}
use chargeback_iq.Deadlines.{at}
use chargeback_iq.Schema.{Db, Env, Dispute}
use chargeback_iq.Repositories.Disputes.{
  has_id, has_case_number, NewDispute, dispute_row, dispute_violation, is_taken,
}
use chargeback_iq.Services.DisputeService.{OpenInput, OpenedDispute, opened_row}
use chargeback_iq.Services.DisputeService.OpenDispute.{IsOpened, after_opening}
use chargeback_iq.Audit.{IsTrailed, is_final, IsClosedRight, IsSound, IsAudited}

-- What an inserted row takes from the values of the insert.
pub record IsRowOf (id : String) (n : NewDispute) (d : Dispute) : Type 0 where
  pub same_id : d.id ≡ id
  pub case_number : n.case_number ≡ some d.case_number
  pub status : d.status_code ≡ n.status_code
  pub still_open : d.closed_at ≡ none
  pub deadline : n.respond_by ≡ at d.respond_by
  pub received : d.received_at ≡ n.received_at

dispute_row-IsRowOf :
    (env : Env) (id : String) (n : NewDispute) (d : Dispute)
    → dispute_row env id n n.respond_by ≡ ok d
    → IsRowOf id n d
dispute_row-IsRowOf env id n d h = ground arith

-- No id and no case number of the table is taken by an admitted row.
pub not_taken :
    (db : Db) (d : Dispute)
    → dispute_violation db d ≡ none
    → (any (has_id d.id) db.disputes ≡ false)
      × (any (has_case_number d.case_number) db.disputes ≡ false)
unfolding dispute_violation is_taken
not_taken db d h = ground arith

opening_ne_change : ◌≡◌ {A = String} "DISPUTE_OPENED" "STATUS_CHANGED" → ⊥
unfolding dec_text
opening_ne_change h = cc ((==_iff "DISPUTE_OPENED" "STATUS_CHANGED").1 h)

module _ (env : Env) (input : OpenInput) (db : Db) (o : OpenedDispute) (db' : Db)
    (h : IsOpened env input db o db') where
  pub opened-IsRowOf :
      IsRowOf
        (env.random_uuid db.drawn)
        (opened_row env input h.context h.reason_code
          (or_default input.received_at (at env.now))
          h.respond_by)
        o.dispute
  opened-IsRowOf = dispute_row-IsRowOf env _ _ o.dispute h.row

  opened-IsTrailed :
      IsAudited db
      → (d : Dispute) → (d ≡ o.dispute) ⊎ In d db.disputes
      → IsTrailed (after_opening env input h.context h.reason_code h.rule o.dispute db).events d
  opened-IsTrailed a d (inl e) = ground (arith, opened-IsRowOf.status)
  opened-IsTrailed a d (inr i) = ground (
    arith,
    a.trailed d i,
    any-eq-false (has_id o.dispute.id) db.disputes (not_taken _ _ h.admitted).0 d i,
  )

  opened_closed :
      IsSound db
      → IsAudited db
      → (d : Dispute) → (d ≡ o.dispute) ⊎ In d db.disputes
      → IsClosedRight db.statuses d
  opened_closed s a d (inl e) = subst (IsClosedRight db.statuses) (sym e) (
    (λ _. subst (λ c. is_final db.statuses c ≡ false) (sym opened-IsRowOf.status) s.opens),
    λ _. opened-IsRowOf.still_open,
  )
  opened_closed s a d (inr i) = a.closed d i

  -- Opening a dispute keeps the audit trail.
  pub after_opening-IsAudited :
      IsSound db
      → IsAudited db
      → IsAudited (after_opening env input h.context h.reason_code h.rule o.dispute db)
  after_opening-IsAudited s a = record {
    trailed = opened-IsTrailed a;
    legal = (λ e. absurd (opening_ne_change e), a.legal);
    closed = opened_closed s a;
  }
