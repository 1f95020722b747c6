-- ===== src/Tests/Openings.antt =====
-- A request that opens a dispute, and the row that it leads to.
use chargeback_iq.Prelude.{none, some, true, ◌≡◌, refl, dec_text}
use chargeback_iq.Prelude.Int.{pos}
use chargeback_iq.Errors.{ok}
use chargeback_iq.Deadlines.{at, date, whole, compute_respond_by, respond_within}
use chargeback_iq.Schema.{Dispute, ReasonCode}
use chargeback_iq.Repositories.Transactions.{Context}
use chargeback_iq.Routes.Openings.{accepted_body_passes}
use chargeback_iq.Repositories.Disputes.{passes_checks}
use chargeback_iq.Routes.Disputes.{OpenBody, meets_open_schema}
use chargeback_iq.Tests.World.{first_dispute}
use chargeback_iq.Tests.Runs.{fresh_env}

abbrev body : OpenBody
body = record {
  case_number = "C-1";
  transaction_id = "p1";
  reason_code = "10.4";
  disputed_amount_minor = none;
  currency = none;
  dispute_fee_minor = some (pos 1_500);
  root_cause = some "FRIENDLY_FRAUD";
  cycle = some 2;
  received_at = some 5_000;
}

body_meets : meets_open_schema body ≡ true
unfolding meets_open_schema dec_text
body_meets = refl

nine_days : compute_respond_by (date 5_000) (whole (pos 9)) ≡ ok (at 777_605_000)
unfolding compute_respond_by respond_within
nine_days = refl

abbrev context : Context
context = record {
  id = "p1";
  merchant_id = "m1";
  processor_code = "ADYEN";
  network_code = "VISA";
  amount_minor = pos 1_000;
  currency = "USD";
  merchant_region = "US";
  mid = "42";
}

abbrev reason : ReasonCode
reason = record {
  id = "r1";
  network_code = "VISA";
  code = "10.4";
  title = "Other Fraud";
  category_code = "FRAUD";
  workflow = "ALLOCATION";
  counts_as_fraud = true;
}

abbrev inserted : Dispute
inserted = record first_dispute {
  root_cause = "FRIENDLY_FRAUD";
  cycle = 2;
  dispute_fee_minor = pos 1_500;
}

accepted_body_passes_test : passes_checks inserted ≡ true
accepted_body_passes_test =
    accepted_body_passes fresh_env body context reason 5_000 9 (at 777_605_000) "u0" inserted
      body_meets refl nine_days refl
