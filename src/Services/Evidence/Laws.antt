-- ===== src/Services/Evidence/Laws.antt =====
-- What a call of `addEvidence` has done, by how it ended.
use chargeback_iq.Prelude.{String, some, false, ◌≡◌, sym, ap, ◌∙◌, arith, suc, ◌==◌, if◌then◌else◌}
use chargeback_iq.Errors.{Thrown}
use chargeback_iq.Schema.{Db, Env, Evidence}
use chargeback_iq.Tx.{returned, threw}
use chargeback_iq.Tx.Laws.{
  SameTables, with_transaction-eq-threw, with_transaction-eq-returned, bind-eq-returned,
  returned-value, returned-state, or_throw-eq-returned, throw_if-eq-returned,
}
use chargeback_iq.Repositories.Disputes.{
  NewEvidence, find_dispute_by_id, DisputeDetails, insert_evidence, append_event, evidence_row,
  add_evidence_row, draw_uuid, event_row, add_event, draw_event, count_evidence,
}
use chargeback_iq.Repositories.Disputes.Laws.{append_event-eq-returned, insert_evidence-eq-returned}
use chargeback_iq.Services.Evidence.{evidence_event, write_evidence, add_body, add_evidence}

module _ (env : Env) (input : NewEvidence) where
  -- The state after the two writes.
  abbrev pub after_evidence : Db → Evidence → Db
  after_evidence db item =
      let inserted = add_evidence_row item (draw_uuid db) in
      add_event (event_row env inserted (evidence_event input item.id)) (draw_event inserted)

  -- What a call that returned has found and done.
  pub record IsAdded (db : Db) (item : Evidence) (db' : Db) : Type 0 where
    pub details : DisputeDetails
    pub found : find_dispute_by_id input.dispute_id db ≡ some details
    pub not_terminal : details.is_terminal ≡ false
    pub result : item ≡ evidence_row env db input
    pub state : db' ≡ after_evidence db item

  module _ (db : Db) (item : Evidence) (db' : Db) where
    pub write_evidence-eq-returned :
        write_evidence env input db ≡ returned item db'
        → (item ≡ evidence_row env db input) × (db' ≡ after_evidence db item)
    unfolding write_evidence
    write_evidence-eq-returned h =
        let (row, mid, e, h1) = bind-eq-returned (insert_evidence env input) _ db item db' h in
        let (a, same, inserted) = insert_evidence-eq-returned env input row db mid e in
        let (v, last, e1, h2) =
          bind-eq-returned (append_event env (evidence_event input row.id)) _ mid item db' h1 in
        let (b, event, after) = append_event-eq-returned env _ v mid last e1 in
        let same_item : item ≡ row = returned-value h2 in
        (
          same_item ∙ same,
          state row mid (sym same_item)
              (inserted ∙ ap (λ x. add_evidence_row x (draw_uuid db)) (sym same ∙ sym same_item))
              (returned-state h2 ∙ after),
        )
      where
        state :
            (row : Evidence) (mid : Db)
            → row ≡ item
            → mid ≡ add_evidence_row item (draw_uuid db)
            → db' ≡ add_event (event_row env mid (evidence_event input row.id)) (draw_event mid)
            → db' ≡ after_evidence db item
        state row mid p q h = rw (p, q) at h

    -- A call of `addEvidence` that returns has found the dispute in a status that is not terminal,
    -- and it added the one item and the one event that records it.
    pub add_evidence-IsAdded : add_evidence env input db ≡ returned item db' → IsAdded db item db'
    unfolding add_evidence add_body
    add_evidence-IsAdded h =
        let h1 = with_transaction-eq-returned (add_body env input) db db' item h in
        let (details, found, h2) = or_throw-eq-returned _ db item db' _ _ h1 in
        let (open_case, h3) = throw_if-eq-returned _ db item db' _ _ h2 in
        let (result, state) = write_evidence-eq-returned h3 in
        record {
          details = details;
          found = found;
          not_terminal = open_case;
          result = result;
          state = state;
        }

-- A call of `addEvidence` that throws leaves every table as it was.
pub add_evidence-eq-threw :
    (env : Env) (input : NewEvidence) (db : Db) (e : Thrown) (db' : Db)
    → add_evidence env input db ≡ threw e db'
    → SameTables db db'
unfolding add_evidence
add_evidence-eq-threw env input db e db' h =
    with_transaction-eq-threw (add_body env input) db db' e h

-- An added item counts once more for its dispute, and for no other.
pub add_evidence_counts :
    (env : Env) (input : NewEvidence) (db : Db) (item : Evidence) (db' : Db) (id : String)
    → add_evidence env input db ≡ returned item db'
    → count_evidence id db'
      ≡ (if input.dispute_id == id then suc (count_evidence id db) else count_evidence id db)
unfolding count_evidence
add_evidence_counts env input db item db' id h =
    let a = add_evidence-IsAdded env input db item db' h in rw (a.state, a.result) (ground arith)
