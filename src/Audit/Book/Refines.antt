-- ===== src/Audit/Book/Refines.antt =====
-- The services refine the book.
use chargeback_iq.Prelude.{
  String, some, true, false, List, [], ◌∷◌, ◌≡◌, refl, sym, subst, ◌∙◌, inl, inr, arith, In, find,
  find-eq-some, any, Option-cases, length, keep,
}
use chargeback_iq.Lifecycle.Laws.{find_transition-eq-some}
use chargeback_iq.Schema.{Db, Env, Dispute, Delivery, Evidence}
use chargeback_iq.Tx.Laws.{SameTables}
use chargeback_iq.Repositories.Disputes.{
  NewEvidence, has_id, count_evidence, is_evidence_of, find_dispute_by_id, DisputeDetails,
}
use chargeback_iq.Repositories.Disputes.Laws.{find-none_of_any, any-of_find, any-map}
use chargeback_iq.Services.DisputeService.{OpenInput, OpenedDispute, ChangeInput, move_of}
use chargeback_iq.Services.DisputeService.ChangeStatus.{IsChanged, after_change}
use chargeback_iq.Services.DisputeService.Rows.{moved_row, moved_row-id, find-after_change}
use chargeback_iq.Services.DisputeService.OpenDispute.{IsOpened, after_opening}
use chargeback_iq.Services.Evidence.Laws.{IsAdded, after_evidence}
use chargeback_iq.Services.Calls.{Reach}
use chargeback_iq.Services.Calls.Keeps.{IsPreserved, Reach_keeps}
use chargeback_iq.Audit.{is_final}
use chargeback_iq.Audit.Opening.{opened-IsRowOf, not_taken}
use chargeback_iq.Audit.Book.{
  write, opens, moves, files, BookRun, start, then_same, then_step, book_of,
}

-- The foreign key of the evidence items: each one belongs to a dispute.
abbrev pub HasOwners : Db → Type 0
HasOwners db = (e : Evidence) → In e db.evidence → any (has_id e.dispute_id) db.disputes ≡ true

-- A case that is not there has no evidence.
no_evidence :
    (id : String) (es : List Evidence) (ds : List Dispute)
    → ((e : Evidence) → In e es → any (has_id e.dispute_id) ds ≡ true)
    → any (has_id id) ds ≡ false
    → length (keep (is_evidence_of id) es) ≡ 0
no_evidence id [] ds h n = refl
no_evidence id (e ∷ es) ds h n =
    ground (arith, h e (inl refl), no_evidence id es ds (λ x i. h x (inr i)) n)

-- The state keeps its reference data and its owners, and its book is a run away from that of `s`.
record IsBooked (s db : Db) : Type 0 where
  table : db.transitions ≡ s.transitions
  statuses : db.statuses ≡ s.statuses
  owners : HasOwners db
  run : BookRun s.transitions s.statuses (book_of s) (book_of db)

-- The book does not see the deliveries and the generators.
same-IsBooked : (s db db' : Db) → SameTables db db' → IsBooked s db → IsBooked s db'
unfolding count_evidence
same-IsBooked s db db' (n, q, same) h = subst (IsBooked s) (sym same) (record {
  table = h.table;
  statuses = h.statuses;
  owners = h.owners;
  run = then_same h.run (λ k. refl);
})

delivered-IsBooked :
    (s db : Db) (ds : List Delivery) → IsBooked s db → IsBooked s (record db { deliveries = ds })
unfolding count_evidence
delivered-IsBooked s db ds h = record {
  table = h.table;
  statuses = h.statuses;
  owners = h.owners;
  run = then_same h.run (λ k. refl);
}

-- The dispute and the status behind the details.
details-eq-some :
    (id : String) (db : Db) (x : DisputeDetails)
    → find_dispute_by_id id db ≡ some x
    → (d : Dispute) × (find (has_id id) db.disputes ≡ some d)
      × (x.is_terminal ≡ is_final db.statuses d.status_code)
unfolding find_dispute_by_id
details-eq-some id db x h = elim (Option-cases (find (has_id id) db.disputes)) [
  | inl e ↦ absurd (ground arith)
  | inr (d, e) ↦ (d, e, ground arith)
]

changed_page :
    (env : Env) (input : ChangeInput) (db : Db) (current : Dispute) (k : String)
    → find (has_id input.dispute_id) db.disputes ≡ some current
    → book_of (after_change env input db current) k
      ≡ write input.dispute_id
          (record { status = input.to_status; evidence = count_evidence input.dispute_id db })
          (book_of db)
          k
unfolding count_evidence
changed_page env input db current k found =
    rw (find-after_change env input db current k)
      (elim (Option-cases (find (has_id k) db.disputes)) [
        | inl e ↦ ground arith
        | inr (d, e) ↦ ground (
          arith,
          find-eq-some (has_id k) db.disputes d e,
          find-eq-some (has_id input.dispute_id) db.disputes current found,
        )
      ])

module _ (env : Env) (s : Db) where
  opened-IsBooked :
      (input : OpenInput) (db : Db) (o : OpenedDispute) (db' : Db)
      → IsBooked s db
      → (c : IsOpened env input db o db')
      → IsBooked s (after_opening env input c.context c.reason_code c.rule o.dispute db)
  unfolding count_evidence
  opened-IsBooked input db o db' h c =
      let absent : any (has_id o.dispute.id) db.disputes ≡ false = (not_taken _ _ c.admitted).0 in
      record {
        table = h.table;
        statuses = h.statuses;
        owners = λ e i. ground (arith, h.owners e i);
        run = then_step h.run (
            opens o.dispute.id (rw (find-none_of_any o.dispute.id db.disputes absent) refl) (λ k.
              ground (
                arith,
                (opened-IsRowOf env input db o db' c).status,
                no_evidence o.dispute.id db.evidence db.disputes h.owners absent,
              )));
      }

  changed-IsBooked :
      (input : ChangeInput) (db : Db) (u : Dispute) (db' : Db)
      → IsBooked s db
      → (c : IsChanged env input db u db') → IsBooked s (after_change env input db c.current)
  unfolding count_evidence
  changed-IsBooked input db u db' h c =
      let (listed, states) =
        find_transition-eq-some db.transitions (move_of input c.current) c.row c.allowed in
      record {
        table = h.table;
        statuses = h.statuses;
        owners = λ e i.
            any-map (moved_row env input db c.current) (moved_row-id env input db c.current)
              e.dispute_id db.disputes
            ∙ h.owners e i;
        run = then_step h.run (
            moves input.dispute_id
              (record {
                status = c.current.status_code;
                evidence = count_evidence input.dispute_id db;
              })
              c.row (rw c.found refl) (subst (In c.row) h.table listed) states.from c.evidence
              (λ k. rw states.to (changed_page env input db c.current k c.found)));
      }

  added-IsBooked :
      (input : NewEvidence) (db : Db) (item : Evidence) (db' : Db)
      → IsBooked s db
      → IsAdded env input db item db'
      → IsBooked s (after_evidence env input db item)
  unfolding count_evidence
  added-IsBooked input db item db' h c =
      let (d, found, ends) = details-eq-some input.dispute_id db c.details c.found in
      record {
        table = h.table;
        statuses = h.statuses;
        owners = λ e i.
            ground (arith, h.owners e, any-of_find input.dispute_id db.disputes d found, c.result);
        run = then_step h.run (
            files input.dispute_id
              (record { status = d.status_code; evidence = count_evidence input.dispute_id db })
              (rw found refl)
              (subst (λ ss. is_final ss d.status_code ≡ false) h.statuses
                (sym ends ∙ c.not_terminal))
              (λ k. ground (arith, c.result)));
      }

IsBooked-IsPreserved : (s : Db) → IsPreserved (IsBooked s)
IsBooked-IsPreserved s = record {
  same = same-IsBooked s;
  delivered = delivered-IsBooked s;
  opened = λ env. opened-IsBooked env s;
  changed = λ env. changed-IsBooked env s;
  added = λ env. added-IsBooked env s;
}

-- Where every evidence item belongs to a dispute, every sequence of calls of the service layer, those
-- that throw and those of webhooks and sweeps included, is a run of the book's specification: seen by
-- status and number of evidence items, cases are only opened as received with no evidence, make moves
-- of the table with the evidence that these ask for, and get evidence while they are not closed.
pub Reach_refines :
    {s t : Db} → Reach s t → HasOwners s → BookRun s.transitions s.statuses (book_of s) (book_of t)
Reach_refines {s} {t} r owners =
    (Reach_keeps (IsBooked s) (IsBooked-IsPreserved s) r
      (record { table = refl; statuses = refl; owners = owners; run = start })).run
