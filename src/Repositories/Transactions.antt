-- ===== src/Repositories/Transactions.antt =====
-- src/repositories/transactionRepository.js: reads about the original payment.
use chargeback_iq.Prelude.{String, Option, none, some, ◌&&◌, find, ◌==◌, opt_eq}
use chargeback_iq.Prelude.Int.{ℤ}
use chargeback_iq.Schema.{Db, Payment, Merchant}

-- The columns of `findTransactionContext` that its caller reads.
pub record Context : Type 0 where
  pub id : String
  pub merchant_id : String
  pub processor_code : String
  pub network_code : String
  pub amount_minor : ℤ
  pub currency : String
  pub merchant_region : String
  pub mid : String

abbrev with_merchant : Payment → Option Merchant → Option Context
with_merchant t none = none
with_merchant t (some m) = some (record {
  id = t.id;
  merchant_id = t.merchant_id;
  processor_code = t.processor_code;
  network_code = t.network_code;
  amount_minor = t.amount_minor;
  currency = t.currency;
  merchant_region = m.region;
  mid = m.mid;
})

abbrev joined : Db → Option Payment → Option Context
joined db none = none
joined db (some t) = with_merchant t (find (λ m. m.id == t.merchant_id) db.merchants)

unfoldable pub find_transaction_context : String → Db → Option Context
find_transaction_context transaction_id db =
    joined db (find (λ t. t.id == transaction_id) db.payments)

unfoldable pub find_transaction_by_processor_id :
    (processor_code : String) (processor_transaction_id : Option String) → Db → Option Payment
find_transaction_by_processor_id processor_code processor_transaction_id db =
    find
      (λ t.
        t.processor_code == processor_code
        && opt_eq processor_transaction_id t.processor_transaction_id)
      db.payments
