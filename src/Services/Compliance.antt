-- ===== src/Services/Compliance.antt =====
-- src/services/complianceService.js: the monitoring programmes of one merchant in one month. The two
-- evaluations that run side by side only read; here the first one runs first.
pub mod Laws
pub mod Counts
use chargeback_iq.Prelude.{ℕ, String, Option, none, some, Bool, true, false, ◌||◌, find, ◌==◌}
use Prim.Native.String.{◌++◌}
use chargeback_iq.Errors.{not_found_error}
use chargeback_iq.Deadlines.{Date, at}
use chargeback_iq.Ratios.{
  Rounding, EcpResult, VampResult, Tier, hecm, ecm, excessive, not_assessable, compliant,
  below_floor, evaluate_ecp, evaluate_vamp,
}
use chargeback_iq.Schema.{Db, Volume, Merchant}
use chargeback_iq.Tx.{M, returned, threw, ◌>>=◌, pure, reads, or_throw, lift}
use chargeback_iq.Repositories.Volumes.{
  Calendar, previous_month_start, find_monthly_volume, count_disputes_in_month,
}

-- `volume?.transaction_count ?? 0`, and likewise the other counts.
abbrev pub transactions_of : Option Volume → ℕ
transactions_of none = 0
transactions_of (some v) = v.transaction_count

abbrev pub card_absent_of : Option Volume → ℕ
card_absent_of none = 0
card_absent_of (some v) = v.card_absent_count

abbrev pub fraud_reports_of : Option Volume → ℕ
fraud_reports_of none = 0
fraud_reports_of (some v) = v.fraud_report_count

pub record EcpReport : Type 0 where
  pub result : EcpResult
  pub merchant_id : String
  pub period_month : ℕ
  pub denominator_month : Date
  pub chargeback_count : ℕ
  pub prior_month_transaction_count : ℕ

pub record VampReport : Type 0 where
  pub result : VampResult
  pub merchant_id : String
  pub period_month : ℕ
  pub denominator_month : ℕ
  pub dispute_count : ℕ
  pub fraud_report_count : ℕ
  pub card_absent_transaction_count : ℕ

pub record Report : Type 0 where
  pub merchant : Merchant
  pub period_month : ℕ
  pub visa : VampReport
  pub mastercard : EcpReport
  pub any_breach : Bool

-- `['EXCESSIVE', 'ECM', 'HECM'].includes(tier)`
abbrev pub is_breach : Tier → Bool
is_breach excessive = true
is_breach ecm = true
is_breach hecm = true
is_breach not_assessable = false
is_breach compliant = false
is_breach below_floor = false

module _ (r : Rounding) (cal : Calendar) (merchant_id : String) (period_month : ℕ) where
  unfoldable pub evaluate_mastercard_ecp : M EcpReport
  evaluate_mastercard_ecp = do
    let prior_month = previous_month_start cal period_month
    chargeback_count ← count_disputes_in_month cal merchant_id "MASTERCARD" period_month
    prior_volume ← find_monthly_volume cal merchant_id "MASTERCARD" prior_month
    result ← lift (evaluate_ecp r chargeback_count (transactions_of prior_volume))
    pure (record {
      result = result;
      merchant_id = merchant_id;
      period_month = period_month;
      denominator_month = prior_month;
      chargeback_count = chargeback_count;
      prior_month_transaction_count = transactions_of prior_volume;
    })

  unfoldable pub evaluate_visa_vamp : (region : String) → M VampReport
  evaluate_visa_vamp region = do
    dispute_count ← count_disputes_in_month cal merchant_id "VISA" period_month
    volume ← find_monthly_volume cal merchant_id "VISA" (at period_month)
    result ←
        lift
          (evaluate_vamp r (fraud_reports_of volume) dispute_count (card_absent_of volume) region)
    pure (record {
      result = result;
      merchant_id = merchant_id;
      period_month = period_month;
      denominator_month = period_month;
      dispute_count = dispute_count;
      fraud_report_count = fraud_reports_of volume;
      card_absent_transaction_count = card_absent_of volume;
    })

  -- What follows the merchant's row.
  unfoldable pub programmes_of : Merchant → M Report
  programmes_of merchant = do
    visa ← evaluate_visa_vamp merchant.region
    mastercard ← evaluate_mastercard_ecp
    pure (record {
      merchant = merchant;
      period_month = period_month;
      visa = visa;
      mastercard = mastercard;
      any_breach = is_breach visa.result.tier || is_breach mastercard.result.tier;
    })

  unfoldable pub evaluate_all_programmes : M Report
  evaluate_all_programmes = do
    found ← reads (λ (db : Db). find (λ m. m.id == merchant_id) db.merchants)
    merchant ← or_throw found (not_found_error ("Merchant " ++ merchant_id ++ " not found."))
    programmes_of merchant
