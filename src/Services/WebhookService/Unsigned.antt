-- ===== src/Services/WebhookService/Unsigned.antt =====
-- A delivery whose signature is not valid is put on record and changes nothing else.
use chargeback_iq.Prelude.{Option, none, some, false, ◌≡◌, refl, sym, ap, subst, ◌⊎◌, inl, inr}
use chargeback_iq.Schema.{Db, Env, Delivery, Dispute}
use chargeback_iq.Tx.{Outcome, returned, with_transaction}
use chargeback_iq.Tx.Laws.{
  SameTables, bind-eq-returned, with_transaction-eq-returned, returned-state, returned-value,
  else-eq,
}
use chargeback_iq.Tx.Keeps.{Keeps, state_of, Keeps-bind, Keeps-with_transaction}
use chargeback_iq.Repositories.Disputes.Laws.{write_unless-eq-returned}
use chargeback_iq.Repositories.Webhooks.{
  NewDelivery, Mark, mark_delivery, record_delivery, mark_found, insert_new,
}
use chargeback_iq.Services.WebhookService.{
  WebhookOutcome, Processed, duplicate, rejected, finish, rejected_mark, process_recorded,
  process_delivery,
}
use chargeback_iq.Services.WebhookService.Keeps.{Keeps-finish_of}

-- The cases, their history and their evidence are those of `before`.
pub record SameCases (before after : Db) : Type 0 where
  pub disputes : after.disputes ≡ before.disputes
  pub events : after.events ≡ before.events
  pub evidence : after.evidence ≡ before.evidence

pub SameCases-of_same :
    (start db db' : Db) → SameTables db db' → SameCases start db → SameCases start db'
SameCases-of_same start db db' (n, s, same) c =
    subst (SameCases start) (sym same)
      (record { disputes = c.disputes; events = c.events; evidence = c.evidence })

module _ (env : Env) (start : Db) where
  mark_found-SameCases :
      (m : Mark) (db : Db) (found o : Option Delivery) (db' : Db)
      → SameCases start db
      → mark_found env m found db ≡ returned o db'
      → SameCases start db'
  mark_found-SameCases m db none o db' c q = subst (SameCases start) (sym (returned-state q)) c
  mark_found-SameCases m db (some d) o db' c q =
      let (v, same, after) = write_unless-eq-returned _ _ _ _ _ _ q in
      subst (SameCases start) (sym after)
        (record { disputes = c.disputes; events = c.events; evidence = c.evidence })

  pub finish-SameCases :
      (m : Mark) (outcome : WebhookOutcome)
      → Keeps (SameCases start) (finish env m outcome none none)
  unfolding mark_delivery
  finish-SameCases m outcome =
      Keeps-finish_of env (SameCases start) (SameCases-of_same start)
        (λ m db o db' c q. mark_found-SameCases m db _ o db' c q) m outcome none none

  insert_new-SameCases :
      (input : NewDelivery) (seen o : Option Delivery) (db' : Db)
      → insert_new env input seen start ≡ returned o db'
      → SameCases start db'
  insert_new-SameCases input (some d) o db' q =
      subst (SameCases start) (sym (returned-state q))
        (record { disputes = refl; events = refl; evidence = refl })
  insert_new-SameCases input none o db' q =
      let (v, same, after) = write_unless-eq-returned _ _ _ _ _ _ q in
      subst (SameCases start) (sym after)
        (record { disputes = refl; events = refl; evidence = refl })

finish-outcome :
    (env : Env) (m : Mark) (outcome : WebhookOutcome) (d : Option Dispute) (db : Db) (r : Processed)
    (db' : Db)
    → finish env m outcome d none db ≡ returned r db'
    → r.outcome ≡ outcome
unfolding finish
finish-outcome env m outcome d db r db' h =
    let (o, mid, e, rest) =
      bind-eq-returned (with_transaction (mark_delivery env m)) _ db r db' h in
    ap (λ (x : Processed). x.outcome) (returned-value rest)

module _ (env : Env) (input : NewDelivery) (unsigned : input.signature_valid ≡ false) where
  recorded-SameCases :
      (start : Db) (o : Option Delivery) (db : Db) (r : Processed) (db' : Db)
      → SameCases start db
      → process_recorded env input o db ≡ returned r db'
      → SameCases start db' × ((r.outcome ≡ duplicate) ⊎ (r.outcome ≡ rejected))
  unfolding process_recorded
  recorded-SameCases start none db r db' c h = (
    subst (SameCases start) (sym (returned-state h)) c,
    inl (ap (λ (x : Processed). x.outcome) (returned-value h)),
  )
  recorded-SameCases start (some d) db r db' c h =
      let q : finish env (rejected_mark d) rejected none none db ≡ returned r db' =
        else-eq input.signature_valid _ _ db unsigned h in
      (
        subst (λ (x : Outcome Processed). SameCases start (state_of x)) q
            ((finish-SameCases env start (rejected_mark d) rejected).at db c),
        inr (finish-outcome env (rejected_mark d) rejected none db r db' q),
      )

  -- An unsigned delivery is answered as rejected, or as a duplicate if its key is on record, and no
  -- dispute, event or evidence item is added or changed.
  pub process_delivery_unsigned :
      (db : Db) (r : Processed) (db' : Db)
      → process_delivery env input db ≡ returned r db'
      → SameCases db db' × ((r.outcome ≡ duplicate) ⊎ (r.outcome ≡ rejected))
  unfolding process_delivery record_delivery
  process_delivery_unsigned db r db' h =
      let (o, mid, e, rest) =
        bind-eq-returned (with_transaction (record_delivery env input)) _ db r db' h in
      recorded-SameCases db o mid r db'
        (insert_new-SameCases env db input _ o mid
          (with_transaction-eq-returned (record_delivery env input) db mid o e))
        rest

  insert_keeps :
      (start db : Db) (seen o : Option Delivery) (db' : Db)
      → SameCases start db
      → insert_new env input seen db ≡ returned o db'
      → SameCases start db'
  insert_keeps start db (some d) o db' c q =
      subst (SameCases start) (sym (returned-state q))
        (record { disputes = c.disputes; events = c.events; evidence = c.evidence })
  insert_keeps start db none o db' c q =
      let (v, same, after) = write_unless-eq-returned _ _ _ _ _ _ q in
      subst (SameCases start) (sym after)
        (record { disputes = c.disputes; events = c.events; evidence = c.evidence })

  recorded_keeps :
      (start : Db) (o : Option Delivery) → Keeps (SameCases start) (process_recorded env input o)
  unfolding process_recorded
  recorded_keeps start none = record { at = λ db c. c }
  recorded_keeps start (some d) = record {
    at = λ db c. rw unsigned ((finish-SameCases env start (rejected_mark d) rejected).at db c);
  }

  -- However the call ends, the cases are those that it found.
  pub unsigned_keeps : (start : Db) → Keeps (SameCases start) (process_delivery env input)
  unfolding process_delivery record_delivery
  unsigned_keeps start =
      Keeps-bind (SameCases start) _ _
        (Keeps-with_transaction (SameCases start) (record_delivery env input)
          (SameCases-of_same start) (λ db o db' c q. insert_keeps start db _ o db' c q))
        (recorded_keeps start)
