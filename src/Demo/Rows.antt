-- ===== src/Demo/Rows.antt =====
-- scripts/seed.js: its dates and the rows that it inserts itself, with the constraints of
-- migrations/004_operational_schema.sql that they meet. `lower` is the function of the database.
use Prim.Native.String.{◌++◌, slice, len}
use chargeback_iq.Prelude.{
  ℕ, zero, suc, ◌-◌, ◌*◌, ◌/◌, ◌%◌, String, Option, none, some, Bool, true, false, not, ◌&&◌, ◌||◌,
  ◌∷◌, ◌≡◌, refl, any, if◌then◌else◌, ◌==◌, leb, ltb, or_default,
}
use chargeback_iq.Prelude.Int.{ℤ, pos}
use chargeback_iq.Errors.{database}
use chargeback_iq.Deadlines.{Date, at, invalid, make_date}
use chargeback_iq.Schema.{Db, Env, Dispute, Merchant, Payment, Operator}
use chargeback_iq.Tx.{M, threw, write_unless}
use chargeback_iq.Repositories.Disputes.{draw_uuid, has_id, is_positive, refers, replace}
use chargeback_iq.Repositories.Volumes.{Calendar}

abbrev pub months_back : Calendar → ℕ → (n : ℕ) → Date
months_back cal date n =
    let month = cal.month_of date in
    if leb n month then make_date (cal.start_of (month - n)) else invalid

abbrev pub hours_ago : (now h : ℕ) → Date
hours_ago now h = let ms = h * 3_600 * 1_000 in if leb ms now then at (now - ms) else invalid

abbrev digit : ℕ → String
digit n = slice "0123456789" (n % 10) (suc (n % 10))

-- A number has no more digits than `suc` of it.
abbrev digits : (fuel n : ℕ) → String
digits zero n = ""
digits (suc fuel) n =
    let tens = digits fuel (n / 10) in if ltb n 10 then digit n else tens ++ digit n

-- `String(n)`
abbrev pub decimal : ℕ → String
decimal n = digits (suc n) n

abbrev zeros : ℕ → String
zeros zero = ""
zeros (suc n) = "0" ++ zeros n

-- `String(n).padStart(width, '0')`
abbrev pub padded : (width n : ℕ) → String
padded width n = let s = decimal n in zeros (width - len s) ++ s

-- The unique `mid`.
unfoldable pub merchant_violation : Db → Merchant → Option String
merchant_violation db m =
    if any (λ (x : Merchant). x.id == m.id || x.mid == m.mid) db.merchants
    then some "23505"
    else none

unfoldable pub create_merchant : Env → (name mid region : String) → M Merchant
create_merchant env name mid region db =
    let row : Merchant = record {
      id = env.random_uuid db.drawn;
      name = name;
      mid = mid;
      region = region;
    } in
    write_unless (merchant_violation db row) row
      (record (draw_uuid db) { merchants = row ∷ db.merchants }) (draw_uuid db)

abbrev is_role : String → Bool
is_role r = r == "ANALYST" || (r == "MANAGER" || r == "ADMIN")

module _ (lower : String → String) where
  -- The CHECK of `role` and the unique `lower(email)`.
  unfoldable pub operator_violation : Db → Operator → Option String
  operator_violation db o =
      if not (is_role o.role)
      then some "23514"
      else if any (λ (x : Operator). x.id == o.id || lower x.email == lower o.email) db.operators
      then some "23505"
      else none

  unfoldable pub create_operator : Env → (email full_name role : String) → M Operator
  create_operator env email full_name role db =
      let row : Operator = record {
        id = env.random_uuid db.drawn;
        email = email;
        full_name = full_name;
        role = role;
      } in
      write_unless (operator_violation db row) row
        (record (draw_uuid db) { operators = row ∷ db.operators }) (draw_uuid db)

-- The `opts` of `createTransaction`.
pub record PaymentOptions : Type 0 where
  pub processor : Option String
  pub network : Option String
  pub amount_minor : Option ℤ
  pub avs : Option String
  pub cvv : Option Bool
  pub three_ds : Option Bool

abbrev pub no_options : PaymentOptions
no_options = record {
  processor = none;
  network = none;
  amount_minor = none;
  avs = none;
  cvv = none;
  three_ds = none;
}

abbrev same_payment : Payment → Payment → Bool
same_payment t x =
    x.id == t.id
    || (x.processor_code == t.processor_code
        && x.processor_transaction_id == t.processor_transaction_id)

-- The CHECK of the amount, the unique reference of the processor, and the foreign keys.
unfoldable pub payment_violation : Db → Payment → Option String
payment_violation db t =
    if not (is_positive t.amount_minor)
    then some "23514"
    else if any (same_payment t) db.payments
    then some "23505"
    else if any (λ (m : Merchant). m.id == t.merchant_id) db.merchants
        && (any (λ c. c == t.processor_code) db.processors
            && (any (λ c. c == t.network_code) db.networks
                && refers (λ code. any (λ c. c == code) db.avs_codes) t.avs_result_code))
    then none
    else some "23503"

abbrev payment_row : (id : String) → Merchant → (i : ℕ) → PaymentOptions → ℕ → Payment
payment_row id merchant i opts occurred_at = record {
  id = id;
  merchant_id = merchant.id;
  processor_code = or_default opts.processor "STRIPE";
  network_code = or_default opts.network "VISA";
  processor_transaction_id = "DEMO-" ++ merchant.mid ++ "-tx-" ++ decimal i;
  amount_minor = or_default opts.amount_minor (pos 25_000);
  currency = "USD";
  is_card_present = false;
  avs_result_code = some (or_default opts.avs "Y");
  cvv_matched = some (or_default opts.cvv true);
  three_ds_authenticated = or_default opts.three_ds false;
  customer_email = some ("customer" ++ decimal i ++ "@example.com");
  billing_country = some "JO";
  shipping_country = some "JO";
  occurred_at = occurred_at;
  settled_at = some occurred_at;
}

abbrev pub insert_payment : Merchant → ℕ → PaymentOptions → (id : String) → Date → M Payment
insert_payment merchant i opts id invalid db = threw (database "22007") db
insert_payment merchant i opts id (at t) db =
    let row = payment_row id merchant i opts t in
    write_unless (payment_violation db row) row (record db { payments = row ∷ db.payments }) db

-- `createTransaction`; an Invalid Date is no timestamp.
unfoldable pub create_transaction :
    Env → (now : ℕ) → Merchant → (i : ℕ) → PaymentOptions → M Payment
create_transaction env now merchant i opts db =
    insert_payment merchant i opts (env.random_uuid db.drawn) (hours_ago now (24 * 30))
      (draw_uuid db)

abbrev pub with_respond_by : ℕ → Dispute → Dispute
with_respond_by t d = record d { respond_by = t }

-- The CHECK that the response is due after the receipt, on the rows that the update selects.
abbrev is_due_early : (id : String) → ℕ → Dispute → Bool
is_due_early id t d = has_id id d && leb t d.received_at

-- `UPDATE disputes SET respond_by = $2 WHERE id = $1`
unfoldable pub set_respond_by : (id : String) → Date → M (Unit {0})
set_respond_by id invalid db = threw (database "22007") db
set_respond_by id (at t) db =
    write_unless (if any (is_due_early id t) db.disputes then some "23514" else none) tt
      (record db { disputes = replace (has_id id) (with_respond_by t) db.disputes }) db

padded_test : padded 3 4 ≡ "004"
padded_test = refl

decimal_test : decimal 13 ≡ "13"
decimal_test = refl
