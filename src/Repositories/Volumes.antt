-- ===== src/Repositories/Volumes.antt =====
-- src/repositories/volumeRepository.js: months, monthly volumes and the disputes of a month.
--
-- A month is a number; `Calendar` says which month a time lies in and when a month starts, as
-- getUTCFullYear, getUTCMonth and Date.UTC do; the months follow each other and cover all times. The
-- driver sends a Date as the local time of the process, and a column of the type DATE keeps its day: that
-- is `date_of`, with the days numbered from a day before all of them, and `is_first_day` says of a day that
-- it is the first of its month. A column of the type TIMESTAMPTZ keeps the time itself.
pub mod Laws
use chargeback_iq.Prelude.{
  ℕ, zero, suc, ◌≤◌, ◌<◌, String, Option, none, some, Bool, true, false, not, ◌&&◌, List, [], ◌∷◌,
  ◌≡◌, find, any, keep, length, map, if◌then◌else◌, ◌==◌, nat_eq, leb, ltb, or_default,
}
use chargeback_iq.Errors.{database}
use chargeback_iq.Deadlines.{Date, at, invalid, make_date}
use chargeback_iq.Schema.{Db, Dispute, Volume}
use chargeback_iq.Tx.{M, returned, threw, write_unless}

pub record Calendar : Type 0 where
  pub month_of : ℕ → ℕ
  pub start_of : ℕ → ℕ
  pub started : (t : ℕ) → start_of (month_of t) ≤ t
  pub not_ended : (t : ℕ) → t < start_of (suc (month_of t))
  pub not_empty : (m : ℕ) → start_of m < start_of (suc m)
  pub ordered : (m n : ℕ) → m ≤ n → start_of m ≤ start_of n
  pub date_of : (t : ℕ) → ℕ
  pub is_first_day : (day : ℕ) → Bool

module _ (cal : Calendar) where
  unfoldable pub month_start : ℕ → Date
  month_start t = make_date (cal.start_of (cal.month_of t))

  -- Before the first month there is no Date.
  abbrev pub start_before : ℕ → Date
  start_before zero = invalid
  start_before (suc m) = make_date (cal.start_of m)

  unfoldable pub previous_month_start : ℕ → Date
  previous_month_start t = start_before (cal.month_of t)

  unfoldable pub next_month_start : ℕ → Date
  next_month_start t = make_date (cal.start_of (suc (cal.month_of t)))

pub record NewVolume : Type 0 where
  pub merchant_id : String
  pub network_code : String
  pub period_month : ℕ
  pub transaction_count : Option ℕ
  pub card_absent_count : Option ℕ
  pub fraud_report_count : Option ℕ

abbrev pub volume_row : Calendar → NewVolume → Volume
volume_row cal v = record {
  merchant_id = v.merchant_id;
  network_code = v.network_code;
  period_month = cal.date_of v.period_month;
  transaction_count = or_default v.transaction_count 0;
  card_absent_count = or_default v.card_absent_count 0;
  fraud_report_count = or_default v.fraud_report_count 0;
}

-- The primary key of `monthly_volumes`.
abbrev pub is_volume_of : (merchant_id network_code : String) → (day : ℕ) → Volume → Bool
is_volume_of merchant_id network_code day v =
    v.merchant_id == merchant_id && (v.network_code == network_code && nat_eq v.period_month day)

abbrev pub same_volume : Volume → Volume → Bool
same_volume row = is_volume_of row.merchant_id row.network_code row.period_month

-- The CHECK that the day is the first of its month, and the foreign key to `merchants`.
unfoldable pub volume_violation : Calendar → Db → Volume → Option String
volume_violation cal db v =
    if not (cal.is_first_day v.period_month)
    then some "23514"
    else if any (λ m. m.id == v.merchant_id) db.merchants
    then none
    else some "23503"

-- ON CONFLICT DO UPDATE replaces the three counts of the row with the key.
unfoldable pub upsert_row : Volume → List Volume → List Volume
upsert_row row vs =
    if any (same_volume row) vs
    then map (λ v. if same_volume row v then row else v) vs
    else row ∷ vs

unfoldable pub upsert_monthly_volume : Calendar → NewVolume → M Volume
unfolding upsert_row
upsert_monthly_volume cal v db =
    let row = volume_row cal v in
    write_unless (volume_violation cal db row) row
      (record db { volumes = upsert_row row db.volumes }) db

-- Invalid Date is no date (22007).
unfoldable pub find_monthly_volume :
    Calendar → (merchant_id network_code : String) → (period_month : Date) → M (Option Volume)
find_monthly_volume cal merchant_id network_code invalid db = threw (database "22007") db
find_monthly_volume cal merchant_id network_code (at t) db =
    returned (find (is_volume_of merchant_id network_code (cal.date_of t)) db.volumes) db

-- The JOIN and the WHERE of the count.
unfoldable pub is_counted :
    Db → (merchant_id network_code : String) → (start end : ℕ) → Dispute → Bool
is_counted db merchant_id network_code start end d =
    any (λ t. t.id == d.transaction_id && t.merchant_id == merchant_id) db.payments
    && (d.network_code == network_code && (leb start d.received_at && ltb d.received_at end))

abbrev pub count_between : (merchant_id network_code : String) → ℕ → Date → M ℕ
count_between merchant_id network_code start invalid db = threw (database "22007") db
count_between merchant_id network_code start (at end) db =
    returned (length (keep (is_counted db merchant_id network_code start end) db.disputes)) db

unfoldable pub count_disputes_in_month :
    Calendar → (merchant_id network_code : String) → (period_month : ℕ) → M ℕ
count_disputes_in_month cal merchant_id network_code period_month =
    count_between merchant_id network_code period_month (next_month_start cal period_month)
