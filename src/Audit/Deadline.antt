-- ===== src/Audit/Deadline.antt =====
-- The deadline that `openDispute` stores.
use chargeback_iq.Prelude.{◌+◌, ◌*◌, ◌≤◌, some, ◌≡◌, or_default}
use chargeback_iq.Deadlines.{at, DeadlineRule, ms_per_day}
use chargeback_iq.Deadlines.Selection.{IsMostSpecific}
use chargeback_iq.Schema.{Db, Env}
use chargeback_iq.Repositories.Transactions.{Context, find_transaction_context}
use chargeback_iq.Services.DisputeService.{OpenInput, OpenedDispute}
use chargeback_iq.Services.DisputeService.OpenDispute.{opening_query}

-- The deadline of an opened dispute: the receipt is the given one (or the clock's), and the deadline
-- lies as many days after it as the most specific rule of the payment's network, region and processor
-- for the stage CHARGEBACK_RECEIVED says.
pub record HasDeadline (env : Env) (input : OpenInput) (db : Db) (o : OpenedDispute) : Type 0 where
  pub context : Context
  pub rule : DeadlineRule
  pub found : find_transaction_context input.transaction_id db ≡ some context
  pub specific : IsMostSpecific db.rules (opening_query context) rule
  pub received : or_default input.received_at (at env.now) ≡ at o.dispute.received_at
  pub positive : 1 ≤ rule.response_days
  pub deadline : o.dispute.respond_by ≡ o.dispute.received_at + rule.response_days * ms_per_day
  pub warn : o.warn_days_before ≡ rule.warn_days_before
