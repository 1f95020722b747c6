-- ===== src/Tests/Programmes.antt =====
-- The programmes' ratios, with exact rounding to the nearest basis point.
use native.Mathlib.Omega.{div_any}
use native.Mathlib.Nat.{mod-lt, div-mul-le_self, le-div_iff_mul-le}
use chargeback_iq.Prelude.{
  ℕ, suc, ◌+◌, ◌*◌, ◌/◌, ◌%◌, nat_eq, ◌≤◌, ◌<◌, none, some, true, false, ◌≡◌, ◌⊎◌, refl, dec_text,
  arith, [], ◌∷◌,
}
use chargeback_iq.Objects.{is_inherited}
use chargeback_iq.Ratios.{
  Rounding, line, not_assessable, at_or_above, no_prior_transactions, bps_to_percent,
  to_basis_points, vamp_merchant_bps, evaluate_ecp, divide, vamp_tier, evaluate_vamp, ecm,
  excessive,
}
use chargeback_iq.Deadlines.{
  at, select_deadline_rule, select_from, is_candidate, score, compute_respond_by, respond_within,
}
use chargeback_iq.Errors.{database}
use chargeback_iq.Schema.{Db}
use chargeback_iq.Tx.{returned, threw, with_transaction}
use chargeback_iq.Tx.Keeps.{state_of}
use chargeback_iq.Repositories.Disputes.{
  find_dispute_by_case_number, insert_dispute, append_event, dispute_violation, passes_checks,
  is_taken, has_parents, event_violation, event_passes_checks, event_has_parents,
}
use chargeback_iq.Repositories.Reference.{list_deadline_rules, find_reason_code}
use chargeback_iq.Repositories.Transactions.{find_transaction_context}
use chargeback_iq.Repositories.Volumes.{
  Calendar, NewVolume, volume_row, upsert_monthly_volume, volume_violation, upsert_row,
  find_monthly_volume, next_month_start, previous_month_start, is_counted, count_between,
  count_disputes_in_month,
}
use chargeback_iq.Repositories.Volumes.Laws.{upsert_monthly_volume_lem, count_disputes_in_month_lem}
use chargeback_iq.Services.DisputeService.{open_dispute, open_body, open_in, open_for, write_opened}
use chargeback_iq.Services.Compliance.{
  Report, evaluate_all_programmes, programmes_of, evaluate_visa_vamp, evaluate_mastercard_ecp,
}
use chargeback_iq.Services.Compliance.Laws.{IsInVamp, IsInEcp, evaluate_all_programmes_iff}
use chargeback_iq.Services.Compliance.Counts.{evaluate_all_programmes_reads, open_dispute_counts}
use chargeback_iq.Tests.World.{env, empty_db, opening, opened, opened_db}
use chargeback_iq.Ratios.Ecp.{
  ecp_tier_of, EcpTiers, severity, evaluate_ecp_tiers, evaluate_ecp_monotone, evaluate_ecp_exact,
  evaluate_ecp_rounds_up,
}
use chargeback_iq.Ratios.Vamp.{
  VampTiers, vamp_tier_of, evaluate_vamp_tiers, evaluate_vamp_inherited,
}

abbrev nearest : ℕ → ℕ → ℕ
nearest n d = (20000 * n + d) / (2 * d)

nearest_not_above : (n d : ℕ) → 0 < d → 2 * (d * nearest n d) ≤ 20000 * n + d
nearest_not_above n d h = omega (arith, div_any (20000 * n + d) (2 * d))

nearest_not_below : (n d : ℕ) → 0 < d → 20000 * n ≤ 2 * (d * nearest n d) + d
nearest_not_below n d h =
    omega (arith, div_any (20000 * n + d) (2 * d), mod-lt (20000 * n + d) {m = 2 * d} (omega arith))

nearest_monotone : (m n d : ℕ) → 0 < d → m ≤ n → nearest m d ≤ nearest n d
nearest_monotone m n d h k =
    (le-div_iff_mul-le (omega arith)).1 (omega (arith, div-mul-le_self (20000 * m + d) (2 * d)))

abbrev exact : Rounding
exact = record {
  bps = nearest;
  not_above = λ n d h k. nearest_not_above n d h;
  not_below = λ n d h k. nearest_not_below n d h;
  monotone = λ m n d h k. nearest_monotone m n d h k;
}

pub rounding : Rounding
rounding = exact

evaluate_ecp_tiers_example : EcpTiers 120 120 (ecp_tier_of (evaluate_ecp exact 120 10_000))
evaluate_ecp_tiers_example = (evaluate_ecp_tiers exact 120 10_000).1 (omega arith)

evaluate_ecp_monotone_test :
    severity (ecp_tier_of (evaluate_ecp exact 120 10_000))
    ≤ severity (ecp_tier_of (evaluate_ecp exact 400 10_000))
evaluate_ecp_monotone_test = evaluate_ecp_monotone exact 120 400 10_000 (omega arith) (omega arith)

evaluate_ecp-exact_test : 1 ≤ severity (ecp_tier_of (evaluate_ecp exact 150 10_000))
evaluate_ecp-exact_test =
    (evaluate_ecp_exact exact 150 10_000 (omega arith) (omega arith)).0 (omega arith) (omega arith)

-- 299 chargebacks over 20000 transactions are 1.495%; over 19990 they are a little more.
evaluate_ecp_rounds_up_example : ecp_tier_of (evaluate_ecp exact 299 19_990) ≡ some ecm
evaluate_ecp_rounds_up_example =
    evaluate_ecp_rounds_up exact 299 19_990 (omega arith) (omega arith) (omega arith) (omega arith)
      (omega arith)

us_is_own : is_inherited "US" ≡ false
unfolding is_inherited dec_text
us_is_own = refl

evaluate_vamp_tiers_example :
    VampTiers 1_600 150 160 (vamp_tier_of (evaluate_vamp exact 600 1_000 100_000 "US"))
unfolding dec_text
evaluate_vamp_tiers_example =
    (evaluate_vamp_tiers exact 600 1_000 100_000 "US" us_is_own).1 (omega arith)

constructor_is_inherited : is_inherited "constructor" ≡ true
unfolding is_inherited dec_text
constructor_is_inherited = refl

evaluate_vamp_inherited_example :
    ¬ (vamp_tier_of (evaluate_vamp exact 600 1_000 100_000 "constructor") ≡ some excessive)
evaluate_vamp_inherited_example =
    evaluate_vamp_inherited exact 600 1_000 100_000 "constructor" constructor_is_inherited

-- Months of thirty days.
abbrev thirty_days : ℕ
thirty_days = 2_592_000_000

pub started_month : (t : ℕ) → t / 2592000000 * 2592000000 ≤ t
started_month t = omega arith

pub not_ended_month : (t : ℕ) → t < suc (t / 2592000000) * 2592000000
not_ended_month t = omega arith

unfoldable pub even : Calendar
even = record {
  month_of = λ t. t / 2592000000;
  start_of = λ m. m * 2592000000;
  started = started_month;
  not_ended = not_ended_month;
  not_empty = λ m. omega arith;
  ordered = λ m n h. omega arith;
  date_of = λ t. t / 86400000;
  is_first_day = λ day. nat_eq (day % 30) 0;
}

abbrev volume : NewVolume
volume = record {
  merchant_id = "m1";
  network_code = "VISA";
  period_month = 0;
  transaction_count = some 900;
  card_absent_count = some 800;
  fraud_report_count = none;
}

abbrev stored_db : Db
stored_db = state_of (upsert_monthly_volume even volume opened_db)

stores : upsert_monthly_volume even volume opened_db ≡ returned (volume_row even volume) stored_db
unfolding open_dispute open_body open_in open_for write_opened with_transaction even
    find_dispute_by_case_number insert_dispute append_event dispute_violation passes_checks is_taken
    has_parents event_violation event_passes_checks event_has_parents list_deadline_rules
    find_reason_code find_transaction_context select_deadline_rule select_from is_candidate score
    compute_respond_by respond_within dec_text upsert_monthly_volume volume_violation upsert_row
stores = refl

one_day : even.date_of 3_600_000 ≡ even.date_of 0
unfolding even
one_day = refl

-- An hour into the day that was stored.
upsert_monthly_volume_lem_example :
    find_monthly_volume even "m1" "VISA" (at 3_600_000) stored_db
    ≡ returned (some (volume_row even volume)) stored_db
upsert_monthly_volume_lem_example =
    (upsert_monthly_volume_lem even volume opened_db (volume_row even volume) stored_db stores).0
      3_600_000 one_day

count_disputes_in_month_lem_test :
    count_disputes_in_month even "m1" "VISA" (even.start_of 0) opened_db ≡ returned 1 opened_db
unfolding open_dispute open_body open_in open_for write_opened with_transaction even
    find_dispute_by_case_number insert_dispute append_event dispute_violation passes_checks is_taken
    has_parents event_violation event_passes_checks event_has_parents list_deadline_rules
    find_reason_code find_transaction_context select_deadline_rule select_from is_candidate score
    compute_respond_by respond_within dec_text
count_disputes_in_month_lem_test =
    count_disputes_in_month_lem even "m1" "VISA" 0 opened_db (omega arith)

-- The same months in a process five hours west of UTC, the days numbered from the one before.
abbrev west : Calendar
west = record even {
  date_of = λ t. (t + 68_400_000) / 86_400_000;
  is_first_day = λ day. nat_eq (day % 30) 1;
}

-- The start of a month is sent as the day before, which is no first day.
west_is_refused :
    upsert_monthly_volume west (record volume { period_month = 2_592_000_000 }) opened_db
    ≡ threw (database "23514") opened_db
unfolding upsert_monthly_volume volume_violation
west_is_refused = refl

evaluate_all_programmes_reads_test :
    state_of (evaluate_all_programmes exact even "m1" 2_592_000_000 stored_db) ≡ stored_db
evaluate_all_programmes_reads_test =
    evaluate_all_programmes_reads exact even "m1" 2_592_000_000 stored_db

open_dispute_counts_test : count_between "m1" "VISA" 0 (at 10_000) opened_db ≡ returned 1 opened_db
unfolding open_dispute open_body open_in open_for write_opened with_transaction is_counted
    find_dispute_by_case_number insert_dispute append_event dispute_violation passes_checks is_taken
    has_parents event_violation event_passes_checks event_has_parents list_deadline_rules
    find_reason_code find_transaction_context select_deadline_rule select_from is_candidate score
    compute_respond_by respond_within dec_text
open_dispute_counts_test =
    open_dispute_counts env opening empty_db opened opened_db "m1" "VISA" 0 10_000 refl

-- A month with 1600 fraud reports over 800 card-absent payments, and no Mastercard payments before it.
abbrev busy_db : Db
busy_db = record empty_db {
  volumes =
      volume_row even
        (record volume { period_month = 2_592_000_000; fraud_report_count = some 1_600 })
      ∷ [];
}

abbrev busy_report : Report
busy_report = record {
  merchant = record { id = "m1"; name = "Shop"; mid = "42"; region = "US" };
  period_month = 2_592_000_000;
  visa = record {
    result = record {
      tier = excessive;
      bps = some 20_000;
      percent = some (record { hundredths = 20_000 });
      events = 1_600;
      threshold_bps = line 150;
      reason = at_or_above (some (record { hundredths = 20_000 })) "US";
    };
    merchant_id = "m1";
    period_month = 2_592_000_000;
    denominator_month = 2_592_000_000;
    dispute_count = 0;
    fraud_report_count = 1_600;
    card_absent_transaction_count = 800;
  };
  mastercard = record {
    result = record {
      tier = not_assessable;
      bps = none;
      percent = none;
      reason = no_prior_transactions;
    };
    merchant_id = "m1";
    period_month = 2_592_000_000;
    denominator_month = at 0;
    chargeback_count = 0;
    prior_month_transaction_count = 0;
  };
  any_breach = true;
}

reports :
    evaluate_all_programmes exact even "m1" 2_592_000_000 busy_db ≡ returned busy_report busy_db
unfolding evaluate_all_programmes programmes_of evaluate_visa_vamp evaluate_mastercard_ecp even
    count_disputes_in_month next_month_start previous_month_start find_monthly_volume evaluate_vamp
    vamp_tier vamp_merchant_bps to_basis_points divide bps_to_percent evaluate_ecp is_inherited
    dec_text
reports = refl

evaluate_all_programmes_iff_example :
    IsInVamp exact even busy_db "m1" "US" 1 ⊎ IsInEcp exact even busy_db "m1" 0
unfolding even
evaluate_all_programmes_iff_example =
    (evaluate_all_programmes_iff exact even "m1" 0 busy_db busy_report busy_db (omega arith)
        us_is_own reports).0
      refl
