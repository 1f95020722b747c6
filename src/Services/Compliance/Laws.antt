-- ===== src/Services/Compliance/Laws.antt =====
-- What a compliance report says.
use chargeback_iq.Prelude.{
  ℕ, suc, ◌+◌, ◌≤◌, String, Option, Bool, true, false, ◌||◌, ◌&&◌, ◌≡◌, ◌↔◌, ◌⊎◌, inl, inr, refl,
  sym, ap, ◌∙◌, arith, subst, find, keep, length, nat_eq, leb, ◌==◌,
}
use Prim.Native.String.{◌++◌}
use chargeback_iq.Objects.{is_inherited}
use chargeback_iq.Errors.{ok, not_found_error}
use chargeback_iq.Deadlines.{at, max_time}
use chargeback_iq.Ratios.{
  Rounding, EcpResult, VampResult, evaluate_ecp, evaluate_vamp, ecp_tier, vamp_tier,
}
use chargeback_iq.Ratios.Vamp.{line_of, vamp_merchant_bps-eq-line}
use chargeback_iq.Schema.{Db, Merchant, Volume}
use chargeback_iq.Tx.{returned}
use chargeback_iq.Tx.Keeps.{state_of}
use chargeback_iq.Tx.Laws.{
  bind-eq-returned, or_throw-eq-returned, lift-eq-returned, returned-value, returned-state,
}
use chargeback_iq.Repositories.Volumes.{
  Calendar, previous_month_start, find_monthly_volume, is_volume_of, count_disputes_in_month,
}
use chargeback_iq.Repositories.Volumes.Laws.{is_dispute_of, own_month, count_disputes_in_month_lem}
use chargeback_iq.Services.Compliance.{
  EcpReport, VampReport, Report, transactions_of, card_absent_of, fraud_reports_of, is_breach,
  evaluate_mastercard_ecp, evaluate_visa_vamp, evaluate_all_programmes, programmes_of,
}
use chargeback_iq.Services.Compliance.Counts.{Keeps-evaluate_visa_vamp}

-- The row of `monthly_volumes` for a network and the month that starts at a time.
abbrev pub stored_volume :
    Calendar → Db → (merchant_id network_code : String) → (month_start : ℕ) → Option Volume
stored_volume cal db merchant_id network_code month_start =
    find (is_volume_of merchant_id network_code (cal.date_of month_start)) db.volumes

found_volume :
    (cal : Calendar) (merchant_id network_code : String) (t : ℕ) (s s' : Db)
    (volume : Option Volume)
    → find_monthly_volume cal merchant_id network_code (at t) s ≡ returned volume s'
    → volume ≡ stored_volume cal s merchant_id network_code t
unfolding find_monthly_volume
found_volume cal merchant_id network_code t s s' volume h = returned-value h

-- How many disputes about payments of the merchant were received in a month on a network.
abbrev pub received_in : Calendar → Db → (merchant_id network_code : String) → (month : ℕ) → ℕ
received_in cal db merchant_id network_code month = length (
    keep
      (λ d.
        is_dispute_of db merchant_id network_code d && nat_eq (cal.month_of d.received_at) month)
      db.disputes)

-- Mastercard's programme applies: `c` chargebacks over `p` transactions.
abbrev pub IsEcpBreach : Rounding → (c p : ℕ) → Type 0
IsEcpBreach r c p = (1 ≤ p) × (100 ≤ c) × (150 ≤ r.bps c p)

-- Visa's programme applies: `f` fraud reports and `d` disputes over `absent` card-absent transactions.
abbrev pub IsVampBreach : Rounding → (region : String) → (f d absent : ℕ) → Type 0
IsVampBreach r region f d absent =
    (1 ≤ absent) × (1500 ≤ f + d) × (line_of region ≤ r.bps (f + d) absent)

-- The programmes of a merchant in a month that is not the first one, over the tables.
abbrev pub IsInVamp :
    Rounding → Calendar → Db → (merchant_id region : String) → (month : ℕ) → Type 0
IsInVamp r cal db merchant_id region month =
    let volume = stored_volume cal db merchant_id "VISA" (cal.start_of month) in
    IsVampBreach r region (fraud_reports_of volume) (received_in cal db merchant_id "VISA" month)
      (card_absent_of volume)

abbrev pub IsInEcp : Rounding → Calendar → Db → (merchant_id : String) → (before : ℕ) → Type 0
IsInEcp r cal db merchant_id before =
    IsEcpBreach r (received_in cal db merchant_id "MASTERCARD" (suc before))
      (transactions_of (stored_volume cal db merchant_id "MASTERCARD" (cal.start_of before)))

IsEcpBreach-iff :
    (r : Rounding) (c p : ℕ) (e : EcpResult)
    → evaluate_ecp r c p ≡ ok e
    → (is_breach e.tier ≡ true) ↔ IsEcpBreach r c p
unfolding evaluate_ecp ecp_tier
IsEcpBreach-iff r c p e h = ground arith

IsVampBreach-iff :
    (r : Rounding) (f d absent : ℕ) (region : String) (v : VampResult)
    → is_inherited region ≡ false
    → evaluate_vamp r f d absent region ≡ ok v
    → (is_breach v.tier ≡ true) ↔ IsVampBreach r region f d absent
unfolding evaluate_vamp vamp_tier
IsVampBreach-iff r f d absent region v own h = ground (arith, vamp_merchant_bps-eq-line region own)

module _ (r : Rounding) (cal : Calendar) (merchant_id : String) (before : ℕ) (db : Db)
    (valid : cal.start_of (suc (suc before)) ≤ max_time) where
  -- The read of the count, with its value.
  counted_value :
      (network_code : String) (n : ℕ) (s : Db)
      → count_disputes_in_month cal merchant_id network_code (cal.start_of (suc before)) db
        ≡ returned n s
      → (n ≡ received_in cal db merchant_id network_code (suc before)) × (s ≡ db)
  counted_value network_code n s e =
      let c = count_disputes_in_month_lem cal merchant_id network_code (suc before) db valid in
      (returned-value (sym c ∙ e), returned-state (sym c ∙ e))

  vamp_report-breach :
      (region : String) (v : VampReport) (db' : Db)
      → is_inherited region ≡ false
      → evaluate_visa_vamp r cal merchant_id (cal.start_of (suc before)) region db ≡ returned v db'
      → (is_breach v.result.tier ≡ true) ↔ IsInVamp r cal db merchant_id region (suc before)
  unfolding evaluate_visa_vamp
  vamp_report-breach region v db' own h =
      let start = cal.start_of (suc before) in
      let (n, s1, e1, h1) =
        bind-eq-returned (count_disputes_in_month cal merchant_id "VISA" start) _ db v db' h in
      let (volume, s2, e2, h2) =
        bind-eq-returned (find_monthly_volume cal merchant_id "VISA" (at start)) _ s1 v db' h1 in
      let (result, e3, h3) =
        lift-eq-returned _ s2 v db'
          (evaluate_vamp r (fraud_reports_of volume) n (card_absent_of volume) region) h2 in
      let (number, same) = counted_value "VISA" n s1 e1 in
      let row : volume ≡ stored_volume cal db merchant_id "VISA" start =
        found_volume cal merchant_id "VISA" start s1 s2 volume e2
        ∙ ap (λ x. stored_volume cal x merchant_id "VISA" start) same in
      subst
        (λ (x : VampReport).
          (is_breach x.result.tier ≡ true) ↔ IsInVamp r cal db merchant_id region (suc before))
        (sym (returned-value h3))
        (subst
          (λ (k : ℕ × Option Volume).
            (is_breach result.tier ≡ true)
            ↔ IsVampBreach r region (fraud_reports_of k.1) k.0 (card_absent_of k.1))
          (λ i. (number i, row i))
          (IsVampBreach-iff r (fraud_reports_of volume) n (card_absent_of volume) region result own
            e3))

  month_before : previous_month_start cal (cal.start_of (suc before)) ≡ at (cal.start_of before)
  unfolding previous_month_start
  month_before =
      let a : cal.start_of before ≤ cal.start_of (suc (suc before)) =
        cal.ordered before (suc (suc before)) (omega arith) in
      let fits : leb (cal.start_of before) max_time ≡ true = ground arith in
      rw (own_month cal (suc before), fits) refl

  ecp_report-breach :
      (e : EcpReport) (db' : Db)
      → evaluate_mastercard_ecp r cal merchant_id (cal.start_of (suc before)) db ≡ returned e db'
      → (is_breach e.result.tier ≡ true) ↔ IsInEcp r cal db merchant_id before
  unfolding evaluate_mastercard_ecp
  ecp_report-breach e db' h =
      let start = cal.start_of (suc before) in
      let (n, s1, e1, h1) =
        bind-eq-returned (count_disputes_in_month cal merchant_id "MASTERCARD" start) _ db e db'
          h in
      let (volume, s2, e2, h2) =
        bind-eq-returned
          (find_monthly_volume cal merchant_id "MASTERCARD" (previous_month_start cal start)) _ s1 e
          db' h1 in
      let (result, e3, h3) =
        lift-eq-returned _ s2 e db' (evaluate_ecp r n (transactions_of volume)) h2 in
      let (number, same) = counted_value "MASTERCARD" n s1 e1 in
      subst
        (λ (x : EcpReport). (is_breach x.result.tier ≡ true) ↔ IsInEcp r cal db merchant_id before)
        (sym (returned-value h3))
        (subst
          (λ (k : ℕ × Option Volume).
            (is_breach result.tier ≡ true) ↔ IsEcpBreach r k.0 (transactions_of k.1))
          (λ i. (number i, row volume s1 s2 same e2 i))
          (IsEcpBreach-iff r n (transactions_of volume) result e3))
    where
      row :
          (volume : Option Volume) (s1 s2 : Db)
          → s1 ≡ db
          → find_monthly_volume cal merchant_id "MASTERCARD"
              (previous_month_start cal (cal.start_of (suc before)))
              s1
            ≡ returned volume s2
          → volume ≡ stored_volume cal db merchant_id "MASTERCARD" (cal.start_of before)
      row volume s1 s2 same e2 =
          let read : find_monthly_volume cal merchant_id "MASTERCARD" (at (cal.start_of before)) s1
              ≡ returned volume s2 =
            subst (λ d. find_monthly_volume cal merchant_id "MASTERCARD" d s1 ≡ returned volume s2)
              month_before e2 in
          found_volume cal merchant_id "MASTERCARD" (cal.start_of before) s1 s2 volume read
          ∙ ap (λ x. stored_volume cal x merchant_id "MASTERCARD" (cal.start_of before)) same

or_iff : (a b : Bool) → ((a || b) ≡ true) ↔ ((a ≡ true) ⊎ (b ≡ true))
or_iff a b = ground arith

-- A report of `evaluateAllProgrammes` about a month that is not the first of the calendar and whose end is
-- a valid Date, for a merchant whose region names no inherited property, flags a breach exactly when the
-- tables put the merchant in one of the two programmes: 1500 fraud reports and disputes on Visa in that
-- month, at the line of the region over the card-absent transactions stored for the same month, or
-- 100 chargebacks on Mastercard in that month, at 150 bps over the transactions stored for the month before.
pub evaluate_all_programmes_iff :
    (r : Rounding) (cal : Calendar) (merchant_id : String) (before : ℕ) (db : Db) (t : Report)
    (db' : Db)
    → cal.start_of (suc (suc before)) ≤ max_time
    → is_inherited t.merchant.region ≡ false
    → evaluate_all_programmes r cal merchant_id (cal.start_of (suc before)) db ≡ returned t db'
    → (t.any_breach ≡ true) ↔ (
        IsInVamp r cal db merchant_id t.merchant.region (suc before)
        ⊎ IsInEcp r cal db merchant_id before)
unfolding evaluate_all_programmes programmes_of
evaluate_all_programmes_iff r cal merchant_id before db t db' valid own h =
    let (merchant, found, h1) =
      or_throw-eq-returned (programmes_of r cal merchant_id start) db t db'
        (find (λ m. m.id == merchant_id) db.merchants)
        (not_found_error ("Merchant " ++ merchant_id ++ " not found.")) h in
    let (visa, s1, e1, h2) =
      bind-eq-returned (evaluate_visa_vamp r cal merchant_id start merchant.region) _ db t db' h1 in
    let (mastercard, s2, e2, h3) =
      bind-eq-returned (evaluate_mastercard_ecp r cal merchant_id start) _ s1 t db' h2 in
    let unchanged : s1 ≡ db =
      subst (λ o. state_of o ≡ db) e1
        ((Keeps-evaluate_visa_vamp (λ s. s ≡ db) r cal merchant_id start merchant.region).at db
          refl) in
    flagged merchant visa mastercard s1 s2 (returned-value h3) e1 (
      subst (λ s. evaluate_mastercard_ecp r cal merchant_id start s ≡ returned mastercard s2)
        unchanged e2)
  where
    start : ℕ
    start = cal.start_of (suc before)

    flagged :
        (merchant : Merchant) (visa : VampReport) (mastercard : EcpReport) (s1 s2 : Db)
        → t ≡ record {
          merchant = merchant;
          period_month = start;
          visa = visa;
          mastercard = mastercard;
          any_breach = is_breach visa.result.tier || is_breach mastercard.result.tier;
        }
        → evaluate_visa_vamp r cal merchant_id start merchant.region db ≡ returned visa s1
        → evaluate_mastercard_ecp r cal merchant_id start db ≡ returned mastercard s2
        → (t.any_breach ≡ true) ↔ (
            IsInVamp r cal db merchant_id t.merchant.region (suc before)
            ⊎ IsInEcp r cal db merchant_id before)
    flagged merchant visa mastercard s1 s2 same e1 e2 =
        let own_region : is_inherited merchant.region ≡ false = rw same at own in
        let v =
          vamp_report-breach r cal merchant_id before db valid merchant.region visa s1 own_region
            e1 in
        let m = ecp_report-breach r cal merchant_id before db valid mastercard s2 e2 in
        let o = or_iff (is_breach visa.result.tier) (is_breach mastercard.result.tier) in
        rw same (
          λ h. elim (o.0 h) [ inl a ↦ inl (v.0 a) | inr b ↦ inr (m.0 b) ],
          λ h. o.1 (elim h [ inl a ↦ inl (v.1 a) | inr b ↦ inr (m.1 b) ]),
        )
