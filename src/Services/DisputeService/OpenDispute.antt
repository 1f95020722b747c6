-- ===== src/Services/DisputeService/OpenDispute.antt =====
-- What a call of `openDispute` has done, by how it ended.
use chargeback_iq.Prelude.{
  Option, none, some, false, ◌≡◌, refl, subst, sym, ◌∙◌, ap, or_default, is_some,
}
use chargeback_iq.Prelude.Int.{pos}
use chargeback_iq.Errors.{Thrown, ok}
use chargeback_iq.Deadlines.{
  Date, at, DeadlineRule, Query, select_deadline_rule, compute_respond_by, whole,
}
use chargeback_iq.Schema.{Db, Env, Dispute, ReasonCode}
use chargeback_iq.Tx.{M, returned, threw, ◌>>◌, pure}
use chargeback_iq.Tx.Laws.{
  SameTables, with_transaction-eq-threw, with_transaction-eq-returned, bind-eq-returned,
  returned-value, returned-state, or_throw-eq-returned, lift-eq-returned, throw_if-eq-returned,
}
use chargeback_iq.Repositories.Reference.{list_deadline_rules, find_reason_code}
use chargeback_iq.Repositories.Transactions.{Context, find_transaction_context}
use chargeback_iq.Repositories.Disputes.{
  dispute_row, dispute_violation, add_dispute, draw_uuid, insert_dispute, event_row, add_event,
  draw_event, append_event, find_dispute_by_case_number,
}
use chargeback_iq.Repositories.Disputes.Laws.{append_event-eq-returned, insert_dispute-eq-returned}
use chargeback_iq.Services.DisputeService.{
  OpenInput, OpenedDispute, js_date, opened_row, opened_event, write_opened, open_for, open_in,
  open_body, open_dispute,
}

-- The rule that a dispute is opened under.
abbrev pub opening_query : Context → Query
opening_query context = record {
  network_code = context.network_code;
  stage = "CHARGEBACK_RECEIVED";
  region = context.merchant_region;
  processor_code = some context.processor_code;
}

-- The state after the two writes.
abbrev pub after_opening : Env → OpenInput → Context → ReasonCode → DeadlineRule → Dispute → Db → Db
after_opening env input context rc rule d db =
    let inserted = add_dispute d (draw_uuid db) in
    add_event (event_row env inserted (opened_event env input context rc rule d.id))
      (draw_event inserted)

-- What a call that returned has found and done.
pub record IsOpened (env : Env) (input : OpenInput) (db : Db) (o : OpenedDispute) (db' : Db)
    : Type 0 where
  pub context : Context
  pub reason_code : ReasonCode
  pub rule : DeadlineRule
  pub respond_by : Date
  pub found : find_transaction_context input.transaction_id db ≡ some context
  pub known : find_reason_code context.network_code input.reason_code db ≡ some reason_code
  pub new_case : find_dispute_by_case_number input.case_number db ≡ none
  pub selected : select_deadline_rule db.rules (opening_query context) ≡ some rule
  pub computed :
      compute_respond_by
        (js_date (or_default input.received_at (at env.now)))
        (whole (pos rule.response_days))
      ≡ ok respond_by
  pub row :
      dispute_row env
        (env.random_uuid db.drawn)
        (opened_row env input context reason_code
          (or_default input.received_at (at env.now))
          respond_by)
        respond_by
      ≡ ok o.dispute
  pub admitted : dispute_violation (draw_uuid db) o.dispute ≡ none
  pub code : o.reason_code ≡ reason_code.code
  pub warn : o.warn_days_before ≡ rule.warn_days_before
  pub state : db' ≡ after_opening env input context reason_code rule o.dispute db

eq_none_of_not_some : {A : Type 0} (o : Option A) → is_some o ≡ false → o ≡ none
eq_none_of_not_some none h = refl
eq_none_of_not_some (some a) h = cc

module _ (env : Env) (input : OpenInput) (db : Db) (o : OpenedDispute) (db' : Db) where
  record_opening : Context → ReasonCode → DeadlineRule → Dispute → M OpenedDispute
  record_opening context rc rule d =
      append_event env (opened_event env input context rc rule d.id)
      >> pure
          (record { dispute = d; reason_code = rc.code; warn_days_before = rule.warn_days_before })

  record_opening-eq-returned :
      (context : Context) (rc : ReasonCode) (rule : DeadlineRule) (d : Dispute) (mid : Db)
      → record_opening context rc rule d mid ≡ returned o db'
      → (o
          ≡ record { dispute = d; reason_code = rc.code; warn_days_before = rule.warn_days_before })
        × (db'
            ≡ add_event
                (event_row env mid (opened_event env input context rc rule d.id))
                (draw_event mid))
  unfolding record_opening
  record_opening-eq-returned context rc rule d mid h =
      let (v, last, e, done) =
        bind-eq-returned (append_event env (opened_event env input context rc rule d.id)) _ mid o
          db' h in
      let (allowed, same, after) = append_event-eq-returned env _ v mid last e in
      (returned-value done, returned-state done ∙ after)

  write_opened-eq-returned :
      (context : Context) (rc : ReasonCode) (rule : DeadlineRule) (received respond : Date)
      → write_opened env input context rc rule received respond db ≡ returned o db'
      → (dispute_row env
            (env.random_uuid db.drawn)
            (opened_row env input context rc received respond)
            respond
          ≡ ok o.dispute)
        × (dispute_violation (draw_uuid db) o.dispute ≡ none)
        × (o.reason_code ≡ rc.code)
        × (o.warn_days_before ≡ rule.warn_days_before)
        × (db' ≡ after_opening env input context rc rule o.dispute db)
  unfolding write_opened record_opening
  write_opened-eq-returned context rc rule received respond h =
      let (d, mid, e, rest) =
        bind-eq-returned (insert_dispute env (opened_row env input context rc received respond)) _
          db o db' h in
      let (row, admitted, after) = insert_dispute-eq-returned env _ d db mid e in
      let (same, state) =
        record_opening-eq-returned context rc rule d (add_dispute d (draw_uuid db))
          (rw after at rest) in
      (
        row ∙ ap ok (sym (ap (λ (x : OpenedDispute). x.dispute) same)),
        subst (λ (x : Dispute). dispute_violation (draw_uuid db) x ≡ none)
            (sym (ap (λ (x : OpenedDispute). x.dispute) same)) admitted,
        ap (λ (x : OpenedDispute). x.reason_code) same,
        ap (λ (x : OpenedDispute). x.warn_days_before) same,
        subst (λ (x : Dispute). db' ≡ after_opening env input context rc rule x db)
            (sym (ap (λ (x : OpenedDispute). x.dispute) same)) state,
      )

  open_for-eq-returned :
      (context : Context) (rc : ReasonCode)
      → find_transaction_context input.transaction_id db ≡ some context
      → find_reason_code context.network_code input.reason_code db ≡ some rc
      → open_for env input context rc db ≡ returned o db'
      → IsOpened env input db o db'
  unfolding open_for list_deadline_rules
  open_for-eq-returned context rc found known h =
      let (fresh, h1) = throw_if-eq-returned _ db o db' _ _ h in
      let (rule, selected, h2) = or_throw-eq-returned _ db o db' _ _ h1 in
      let (respond, computed, h3) = lift-eq-returned _ db o db' _ h2 in
      let (row, admitted, code, warn, state) =
        write_opened-eq-returned context rc rule (or_default input.received_at (at env.now)) respond
          h3 in
      record {
        context = context;
        reason_code = rc;
        rule = rule;
        respond_by = respond;
        found = found;
        known = known;
        new_case = eq_none_of_not_some _ fresh;
        selected = selected;
        computed = computed;
        row = row;
        admitted = admitted;
        code = code;
        warn = warn;
        state = state;
      }

  open_body-eq-returned : open_body env input db ≡ returned o db' → IsOpened env input db o db'
  unfolding open_body open_in
  open_body-eq-returned h =
      let (context, found, h1) = or_throw-eq-returned _ db o db' _ _ h in
      let (rc, known, h2) = or_throw-eq-returned _ db o db' _ _ h1 in
      open_for-eq-returned context rc found known h2

  -- A call of `openDispute` that returns has found the payment, the reason code of its network and the
  -- most specific rule, and no dispute with the case number; it inserted the one row with the deadline
  -- computed from that rule, and recorded the one event.
  pub open_dispute-IsOpened :
      open_dispute env input db ≡ returned o db' → IsOpened env input db o db'
  unfolding open_dispute
  open_dispute-IsOpened h =
      open_body-eq-returned (with_transaction-eq-returned (open_body env input) db db' o h)

-- A call of `openDispute` that throws leaves every table as it was.
pub open_dispute-eq-threw :
    (env : Env) (input : OpenInput) (db : Db) (e : Thrown) (db' : Db)
    → open_dispute env input db ≡ threw e db'
    → SameTables db db'
unfolding open_dispute
open_dispute-eq-threw env input db e db' h =
    with_transaction-eq-threw (open_body env input) db db' e h
