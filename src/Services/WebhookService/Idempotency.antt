-- ===== src/Services/WebhookService/Idempotency.antt =====
-- A delivery is acted on once: whatever became of the first, the same key again is a duplicate.
use chargeback_iq.Prelude.{
  suc, String, Option, none, some, true, List, [], ◌∷◌, ◌≡◌, refl, sym, ap, subst, ◌∙◌, arith, find,
  is_some, Option-cases, inl, inr,
}
use chargeback_iq.Schema.{Db, Env, Delivery}
use chargeback_iq.Tx.{Outcome, returned, with_transaction}
use chargeback_iq.Tx.Laws.{
  SameTables, returned-state, bind-eq-returned, with_transaction-eq-returned,
}
use chargeback_iq.Tx.Keeps.{Keeps_of_ends, state_of}
use chargeback_iq.Repositories.Disputes.{draw_uuid}
use chargeback_iq.Repositories.Disputes.Laws.{write_unless-eq-returned}
use chargeback_iq.Repositories.Webhooks.{
  NewDelivery, Mark, mark_delivery, record_delivery, find_delivery, has_key, mark_each, mark_found,
  insert_new,
}
use chargeback_iq.Services.DisputeService.{open_dispute, change_status}
use chargeback_iq.Services.DisputeService.ChangeStatus.{
  IsChanged, change_status-IsChanged, change_status-eq-threw,
}
use chargeback_iq.Services.DisputeService.OpenDispute.{
  IsOpened, open_dispute-IsOpened, open_dispute-eq-threw,
}
use chargeback_iq.Services.WebhookService.{Processed, duplicate, process_recorded, process_delivery}
use chargeback_iq.Services.WebhookService.Keeps.{IsKept, Keeps-process_recorded}

-- A delivery with the key is on record.
abbrev pub IsRecorded : (processor_code external_event_id : String) → Db → Type 0
IsRecorded p e db = is_some (find (has_key p e) db.deliveries) ≡ true

-- The duplicate answer to a key that is on record.
abbrev pub duplicate_of : Option Delivery → Processed
duplicate_of seen = record { outcome = duplicate; delivery = seen; dispute = none; error = none }

-- A delivery whose key is on record is answered as a duplicate; nothing is written.
pub process_delivery_recorded :
    (env : Env) (input : NewDelivery) (db : Db)
    → IsRecorded input.processor_code input.external_event_id db
    → process_delivery env input db
      ≡ returned
          (duplicate_of (find_delivery input.processor_code input.external_event_id db))
          (draw_uuid db)
unfolding process_delivery record_delivery find_delivery with_transaction process_recorded
process_delivery_recorded env input db h =
    elim (Option-cases
      (find (has_key input.processor_code input.external_event_id) db.deliveries)) [
        | inl e ↦ cc
        | inr (d, e) ↦ ground arith
      ]

module _ (env : Env) (p e : String) where
  -- A mark changes no key.
  recorded-mark_each :
      (m : Mark) (ds : List Delivery)
      → is_some (find (has_key p e) (mark_each env m ds)) ≡ is_some (find (has_key p e) ds)
  recorded-mark_each m [] = refl
  recorded-mark_each m (d ∷ ds) = ground (arith, recorded-mark_each m ds)

  same-IsRecorded : (db db' : Db) → SameTables db db' → IsRecorded p e db → IsRecorded p e db'
  same-IsRecorded db db' (n, s, same) h = subst (IsRecorded p e) (sym same) h

  mark_found-IsRecorded :
      (m : Mark) (db : Db) (found o : Option Delivery) (db' : Db)
      → IsRecorded p e db
      → mark_found env m found db ≡ returned o db'
      → IsRecorded p e db'
  mark_found-IsRecorded m db none o db' h q = subst (IsRecorded p e) (sym (returned-state q)) h
  mark_found-IsRecorded m db (some d) o db' h q =
      let (v, same, after) = write_unless-eq-returned _ _ _ _ _ _ q in
      subst (IsRecorded p e) (sym after) (recorded-mark_each m db.deliveries ∙ h)

  IsRecorded-kept : IsKept env (IsRecorded p e)
  unfolding mark_delivery
  IsRecorded-kept = record {
    same = same-IsRecorded;
    opening = λ input.
        Keeps_of_ends (IsRecorded p e) (open_dispute env input)
          (λ db o db' h q.
            subst (IsRecorded p e)
              (sym (IsOpened.state (open_dispute-IsOpened env input db o db' q))) h)
          (λ db x db' q. same-IsRecorded db db' (open_dispute-eq-threw env input db x db' q));
    change = λ input.
        Keeps_of_ends (IsRecorded p e) (change_status env input)
          (λ db u db' h q.
            subst (IsRecorded p e)
              (sym (IsChanged.state (change_status-IsChanged env input db u db' q))) h)
          (λ db x db' q. same-IsRecorded db db' (change_status-eq-threw env input db x db' q));
    mark = λ m db o db' h q. mark_found-IsRecorded m db _ o db' h q;
  }

-- Recording a delivery that returns leaves its key on record.
insert_new-IsRecorded :
    (env : Env) (input : NewDelivery) (db : Db) (seen o : Option Delivery) (db' : Db)
    → find (has_key input.processor_code input.external_event_id) db.deliveries ≡ seen
    → insert_new env input seen db ≡ returned o db'
    → IsRecorded input.processor_code input.external_event_id db'
insert_new-IsRecorded env input db (some d) o db' f q =
    subst (IsRecorded input.processor_code input.external_event_id) (sym (returned-state q))
      (ap is_some f)
insert_new-IsRecorded env input db none o db' f q =
    let (v, same, after) = write_unless-eq-returned _ _ _ _ _ _ q in
    subst (IsRecorded input.processor_code input.external_event_id) (sym after) (ground arith)

-- A delivery that was processed is on record afterwards, whatever its outcome.
process_delivery-IsRecorded :
    (env : Env) (input : NewDelivery) (db : Db) (r : Processed) (db' : Db)
    → process_delivery env input db ≡ returned r db'
    → IsRecorded input.processor_code input.external_event_id db'
unfolding process_delivery record_delivery
process_delivery-IsRecorded env input db r db' h =
    let (o, mid, e, rest) =
      bind-eq-returned (with_transaction (record_delivery env input)) _ db r db' h in
    let recorded =
      insert_new-IsRecorded env input db _ o mid refl
        (with_transaction-eq-returned (record_delivery env input) db mid o e) in
    subst
      (λ (x : Outcome Processed).
        IsRecorded input.processor_code input.external_event_id (state_of x))
      rest
      ((Keeps-process_recorded env _
          (IsRecorded-kept env input.processor_code input.external_event_id) input o).at
        mid recorded)

-- Once a delivery was processed, whatever its outcome, a delivery with the same processor and event
-- id, whatever else it says and whether or not it is signed, is answered as a duplicate, and no table
-- changes.
pub process_delivery_once :
    (env later : Env) (input again : NewDelivery) (db : Db) (r : Processed) (db' : Db)
    → process_delivery env input db ≡ returned r db'
    → again.processor_code ≡ input.processor_code
    → again.external_event_id ≡ input.external_event_id
    → (process_delivery later again db'
        ≡ returned
            (duplicate_of (find_delivery input.processor_code input.external_event_id db'))
            (draw_uuid db'))
      × SameTables db' (draw_uuid db')
process_delivery_once env later input again db r db' h p e = (
  process_delivery_recorded later again db'
        (rw (p, e) (process_delivery-IsRecorded env input db r db' h))
      ∙ ap (λ (d : Option Delivery). returned (duplicate_of d) (draw_uuid db')) (rw (p, e) refl),
  (suc db'.drawn, db'.event_seq, refl),
)
