-- ===== src/Services/Compliance/Counts.antt =====
-- The counts behind the ratios: reports only read, and an opened dispute counts once.
use Prim.Native.String.{◌++◌}
use chargeback_iq.Prelude.{◌||◌, ℕ, suc, String, ◌≡◌, refl, arith, keep, length, if◌then◌else◌}
use chargeback_iq.Errors.{not_found_error}
use chargeback_iq.Deadlines.{Date, at, invalid}
use chargeback_iq.Ratios.{Rounding}
use chargeback_iq.Schema.{Db, Env, Merchant}
use chargeback_iq.Tx.{returned}
use chargeback_iq.Tx.Keeps.{
  Keeps, Keeps-bind, Keeps-pure, Keeps-reads, Keeps-or_throw-bind, Keeps-lift, state_of,
}
use chargeback_iq.Repositories.Volumes.{
  Calendar, find_monthly_volume, count_disputes_in_month, count_between, is_counted,
}
use chargeback_iq.Services.DisputeService.{OpenInput, OpenedDispute, open_dispute}
use chargeback_iq.Services.DisputeService.OpenDispute.{open_dispute-IsOpened}
use chargeback_iq.Services.Compliance.{
  evaluate_mastercard_ecp, evaluate_visa_vamp, evaluate_all_programmes, programmes_of, is_breach,
}

module _ (P : Db → Type 0) where
  Keeps-count_between :
      (merchant_id network_code : String) (start : ℕ) (end : Date)
      → Keeps P (count_between merchant_id network_code start end)
  Keeps-count_between m n start invalid = record { at = λ db p. p }
  Keeps-count_between m n start (at t) = record { at = λ db p. p }

  Keeps-find_monthly_volume :
      (cal : Calendar) (merchant_id network_code : String) (d : Date)
      → Keeps P (find_monthly_volume cal merchant_id network_code d)
  unfolding find_monthly_volume
  Keeps-find_monthly_volume cal m n invalid = record { at = λ db p. p }
  Keeps-find_monthly_volume cal m n (at t) = record { at = λ db p. p }

  module _ (r : Rounding) (cal : Calendar) (merchant_id : String) (period_month : ℕ) where
    pub Keeps-evaluate_visa_vamp :
        (region : String) → Keeps P (evaluate_visa_vamp r cal merchant_id period_month region)
    unfolding evaluate_visa_vamp count_disputes_in_month
    Keeps-evaluate_visa_vamp region =
        Keeps-bind P _ _ (Keeps-count_between merchant_id "VISA" period_month _) (λ n.
          Keeps-bind P _ _ (Keeps-find_monthly_volume cal merchant_id "VISA" (at period_month))
            (λ v. Keeps-bind P _ _ (Keeps-lift P _) (λ x. Keeps-pure P _)))

    Keeps-evaluate_mastercard_ecp : Keeps P (evaluate_mastercard_ecp r cal merchant_id period_month)
    unfolding evaluate_mastercard_ecp count_disputes_in_month
    Keeps-evaluate_mastercard_ecp =
        Keeps-bind P _ _ (Keeps-count_between merchant_id "MASTERCARD" period_month _) (λ n.
          Keeps-bind P _ _ (Keeps-find_monthly_volume cal merchant_id "MASTERCARD" _)
            (λ v. Keeps-bind P _ _ (Keeps-lift P _) (λ x. Keeps-pure P _)))

    Keeps-programmes_of : (m : Merchant) → Keeps P (programmes_of r cal merchant_id period_month m)
    unfolding programmes_of
    Keeps-programmes_of m = Keeps-bind P _ _ (Keeps-evaluate_visa_vamp m.region) (λ v.
        Keeps-bind P _ _ Keeps-evaluate_mastercard_ecp (λ e. Keeps-pure P (record {
          merchant = m;
          period_month = period_month;
          visa = v;
          mastercard = e;
          any_breach = is_breach v.result.tier || is_breach e.result.tier;
        })))

    pub Keeps-evaluate_all_programmes :
        Keeps P (evaluate_all_programmes r cal merchant_id period_month)
    unfolding evaluate_all_programmes
    Keeps-evaluate_all_programmes = Keeps-bind P _ _ (Keeps-reads P _) (λ found.
        Keeps-or_throw-bind P found (not_found_error ("Merchant " ++ merchant_id ++ " not found."))
          (programmes_of r cal merchant_id period_month) Keeps-programmes_of)

-- A compliance report, however the call ends, leaves the database as it was.
pub evaluate_all_programmes_reads :
    (r : Rounding) (cal : Calendar) (merchant_id : String) (period_month : ℕ) (db : Db)
    → state_of (evaluate_all_programmes r cal merchant_id period_month db) ≡ db
evaluate_all_programmes_reads r cal merchant_id period_month db =
    (Keeps-evaluate_all_programmes (λ s. s ≡ db) r cal merchant_id period_month).at db refl

-- The disputes of a period that count.
abbrev pub counted : Db → (merchant_id network_code : String) → (start end : ℕ) → ℕ
counted db merchant_id network_code start end =
    length (keep (is_counted db merchant_id network_code start end) db.disputes)

-- A dispute that is opened counts once more in the periods of its payment's merchant, on its network,
-- that its receipt lies in, and in no other.
pub open_dispute_counts :
    (env : Env) (input : OpenInput) (db : Db) (o : OpenedDispute) (db' : Db)
    (merchant_id network_code : String) (start end : ℕ)
    → open_dispute env input db ≡ returned o db'
    → count_between merchant_id network_code start (at end) db'
      ≡ returned
          (if is_counted db merchant_id network_code start end o.dispute
            then suc (counted db merchant_id network_code start end)
            else counted db merchant_id network_code start end)
          db'
unfolding is_counted
open_dispute_counts env input db o db' merchant_id network_code start end h =
    let a = open_dispute-IsOpened env input db o db' h in rw a.state (ground arith)
