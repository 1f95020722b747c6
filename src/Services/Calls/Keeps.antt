-- ===== src/Services/Calls/Keeps.antt =====
-- What every run of the service layer keeps.
use chargeback_iq.Prelude.{ℕ, suc, length, Option, none, some, List, [], ◌∷◌, ◌≡◌, refl, sym, subst}
use chargeback_iq.Schema.{Db, Env, Evidence, Delivery, Dispute}
use chargeback_iq.Tx.{returned, with_transaction, ◌>>=◌, pure}
use chargeback_iq.Tx.Laws.{SameTables, returned-state}
use chargeback_iq.Tx.Keeps.{Keeps, Keeps_of_ends, Keeps-catch, Keeps-bind, Keeps-pure}
use chargeback_iq.Repositories.Disputes.{NewEvidence, draw_uuid}
use chargeback_iq.Repositories.Disputes.Laws.{write_unless-eq-returned}
use chargeback_iq.Repositories.Disputes.Queue.{list_overdue_open_disputes}
use chargeback_iq.Repositories.Webhooks.{
  NewDelivery, Mark, mark_delivery, record_delivery, mark_found, insert_new,
}
use chargeback_iq.Services.DisputeService.{
  OpenInput, OpenedDispute, open_dispute, ChangeInput, change_status,
}
use chargeback_iq.Services.DisputeService.ChangeStatus.{
  IsChanged, change_status-IsChanged, change_status-eq-threw, after_change,
}
use chargeback_iq.Services.DisputeService.OpenDispute.{
  IsOpened, open_dispute-IsOpened, open_dispute-eq-threw, after_opening,
}
use chargeback_iq.Services.Evidence.{add_evidence}
use chargeback_iq.Services.Evidence.Laws.{
  IsAdded, add_evidence-IsAdded, add_evidence-eq-threw, after_evidence,
}
use chargeback_iq.Services.Sweep.{
  expire_overdue_disputes, expire_one, expire_each, expiry_of, expired, skipped, code_of,
  expired_of, skipped_of, SweepResult,
}
use chargeback_iq.Services.WebhookService.{process_delivery}
use chargeback_iq.Services.WebhookService.Keeps.{Keeps-process_delivery}
use chargeback_iq.Services.Calls.{
  Step, Reach, opening, change, evidence, sweep, webhook, here, next,
}

-- A property of the state that the writes of the services keep: those of a call that returned, and
-- whatever leaves the tables but the deliveries alone.
pub record IsPreserved (P : Db → Type 0) : Type 0 where
  pub same : (db db' : Db) → SameTables db db' → P db → P db'
  pub delivered : (db : Db) (ds : List Delivery) → P db → P (record db { deliveries = ds })
  pub opened :
      (env : Env) (input : OpenInput) (db : Db) (o : OpenedDispute) (db' : Db)
      → P db
      → (c : IsOpened env input db o db')
      → P (after_opening env input c.context c.reason_code c.rule o.dispute db)
  pub changed :
      (env : Env) (input : ChangeInput) (db : Db) (u : Dispute) (db' : Db)
      → P db
      → (c : IsChanged env input db u db') → P (after_change env input db c.current)
  pub added :
      (env : Env) (input : NewEvidence) (db : Db) (item : Evidence) (db' : Db)
      → P db
      → IsAdded env input db item db'
      → P (after_evidence env input db item)

module _ (P : Db → Type 0) (k : IsPreserved P) (env : Env) where
  pub Keeps-open_dispute : (input : OpenInput) → Keeps P (open_dispute env input)
  Keeps-open_dispute input =
      Keeps_of_ends P (open_dispute env input)
        (λ db o db' p q.
          let c = open_dispute-IsOpened env input db o db' q in
          subst P (sym c.state) (k.opened env input db o db' p c))
        (λ db x db' q. k.same db db' (open_dispute-eq-threw env input db x db' q))

  pub Keeps-change_status : (input : ChangeInput) → Keeps P (change_status env input)
  Keeps-change_status input =
      Keeps_of_ends P (change_status env input)
        (λ db u db' p q.
          let c = change_status-IsChanged env input db u db' q in
          subst P (sym c.state) (k.changed env input db u db' p c))
        (λ db x db' q. k.same db db' (change_status-eq-threw env input db x db' q))

  pub Keeps-add_evidence : (input : NewEvidence) → Keeps P (add_evidence env input)
  Keeps-add_evidence input =
      Keeps_of_ends P (add_evidence env input)
        (λ db item db' p q.
          let c = add_evidence-IsAdded env input db item db' q in
          subst P (sym c.state) (k.added env input db item db' p c))
        (λ db x db' q. k.same db db' (add_evidence-eq-threw env input db x db' q))

  Keeps-expire_one : (d : Dispute) → Keeps P (expire_one env d)
  unfolding expire_one
  Keeps-expire_one d =
      Keeps-catch P _ _
        (Keeps-bind P (change_status env (expiry_of d)) (λ u. pure (expired u.id))
          (Keeps-change_status (expiry_of d)) (λ u. Keeps-pure P _))
        (λ e.
          Keeps-pure P (skipped (record { id = d.id; status = d.status_code; reason = code_of e })))

  Keeps-expire_each : (ds : List Dispute) → Keeps P (expire_each env ds)
  unfolding expire_each
  Keeps-expire_each [] = Keeps-pure P []
  Keeps-expire_each (d ∷ ds) =
      Keeps-bind P (expire_one env d) (λ one. expire_each env ds >>= λ others. pure (one ∷ others))
        (Keeps-expire_one d)
        (λ one.
          Keeps-bind P (expire_each env ds) (λ others. pure (one ∷ others)) (Keeps-expire_each ds)
            (λ others. Keeps-pure P (one ∷ others)))

  Keeps-expire_overdue_disputes : (now : ℕ) → Keeps P (expire_overdue_disputes env now)
  unfolding expire_overdue_disputes with_transaction
  Keeps-expire_overdue_disputes now = record {
    at = λ db p.
        let overdue = list_overdue_open_disputes now db in
        (Keeps-bind P (expire_each env overdue)
            (λ pushed. pure {A = SweepResult} (record {
              expired = expired_of pushed;
              skipped = skipped_of pushed;
              checked = length overdue;
            }))
            (Keeps-expire_each overdue) (λ pushed. Keeps-pure P _)).at
          db p;
  }

  mark_found_keeps :
      (m : Mark) (db : Db) (found o : Option Delivery) (db' : Db)
      → P db
      → mark_found env m found db ≡ returned o db'
      → P db'
  mark_found_keeps m db none o db' p q = subst P (sym (returned-state q)) p
  mark_found_keeps m db (some d) o db' p q =
      let (v, same, after) = write_unless-eq-returned _ _ _ _ _ _ q in
      subst P (sym after) (k.delivered db _ p)

  insert_new_keeps :
      (input : NewDelivery) (db : Db) (seen o : Option Delivery) (db' : Db)
      → P db
      → insert_new env input seen db ≡ returned o db'
      → P db'
  insert_new_keeps input db (some d) o db' p q =
      k.same db db' (suc db.drawn, db.event_seq, returned-state q) p
  insert_new_keeps input db none o db' p q =
      let (v, same, after) = write_unless-eq-returned _ _ _ _ _ _ q in
      subst P (sym after) (
        k.delivered (draw_uuid db) _
          (k.same db (draw_uuid db) (suc db.drawn, db.event_seq, refl) p))

  Keeps-process_delivery_call : (input : NewDelivery) → Keeps P (process_delivery env input)
  unfolding mark_delivery record_delivery
  Keeps-process_delivery_call input =
      Keeps-process_delivery env P
        (record {
          same = k.same;
          opening = Keeps-open_dispute;
          change = Keeps-change_status;
          mark = λ m db o db' p q. mark_found_keeps m db _ o db' p q;
        })
        input (λ db o db' p q. insert_new_keeps input db _ o db' p q)

module _ (P : Db → Type 0) (k : IsPreserved P) where
  pub Step_keeps : {s t : Db} → Step s t → P s → P t
  Step_keeps {s} (opening env input e) p =
      subst P (sym e) ((Keeps-open_dispute P k env input).at s p)
  Step_keeps {s} (change env input e) p =
      subst P (sym e) ((Keeps-change_status P k env input).at s p)
  Step_keeps {s} (evidence env input e) p =
      subst P (sym e) ((Keeps-add_evidence P k env input).at s p)
  Step_keeps {s} (sweep env now e) p =
      subst P (sym e) ((Keeps-expire_overdue_disputes P k env now).at s p)
  Step_keeps {s} (webhook env input e) p =
      subst P (sym e) ((Keeps-process_delivery_call P k env input).at s p)

  -- Every run keeps what the writes keep.
  pub Reach_keeps : {s t : Db} → Reach s t → P s → P t
  Reach_keeps here p = p
  Reach_keeps (next r st) p = Step_keeps st (Reach_keeps r p)
