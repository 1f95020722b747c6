-- ===== src/Services/WebhookService/Keeps.antt =====
-- What `processDelivery` keeps, if its parts keep it.
use chargeback_iq.Prelude.{String, Option, none, some, ◌≡◌}
use chargeback_iq.Errors.{Thrown}
use chargeback_iq.Schema.{Db, Env, Delivery, Dispute}
use chargeback_iq.Tx.{returned}
use chargeback_iq.Tx.Laws.{SameTables}
use chargeback_iq.Tx.Keeps.{
  Keeps, Keeps-pure, Keeps-reads, Keeps-if, Keeps-bind, Keeps-or_throw-bind, Keeps-catch,
  Keeps-with_transaction,
}
use chargeback_iq.Repositories.Transactions.{find_transaction_by_processor_id}
use chargeback_iq.Repositories.Disputes.{find_dispute_by_case_number}
use chargeback_iq.Repositories.Webhooks.{NewDelivery, Mark, mark_delivery, record_delivery}
use chargeback_iq.Services.DisputeService.{OpenInput, open_dispute, ChangeInput, change_status}
use chargeback_iq.Services.WebhookService.{
  WebhookOutcome, finish, handle_created, handle_status, handle, handle_failure, process_recorded,
  process_delivery, unknown_transaction, unknown_case, processed_mark, dispute_opened,
  status_changed, open_input, change_input,
}

-- A property of the state that every part of `processDelivery` keeps.
pub record IsKept (env : Env) (P : Db → Type 0) : Type 0 where
  pub same : (db db' : Db) → SameTables db db' → P db → P db'
  pub opening : (input : OpenInput) → Keeps P (open_dispute env input)
  pub change : (input : ChangeInput) → Keeps P (change_status env input)
  pub mark :
      (m : Mark) (db : Db) (o : Option Delivery) (db' : Db)
      → P db
      → mark_delivery env m db ≡ returned o db'
      → P db'

-- A mark keeps it, if a rollback and the update do.
pub Keeps-finish_of :
    (env : Env) (P : Db → Type 0)
    → ((db db' : Db) → SameTables db db' → P db → P db')
    → ((m : Mark) (db : Db) (o : Option Delivery) (db' : Db)
        → P db
        → mark_delivery env m db ≡ returned o db'
        → P db')
    → (m : Mark) (outcome : WebhookOutcome) (d : Option Dispute) (e : Option Thrown)
    → Keeps P (finish env m outcome d e)
unfolding finish
Keeps-finish_of env P same mark m outcome d e =
    Keeps-bind P _ _ (Keeps-with_transaction P (mark_delivery env m) same (mark m))
      (λ o. Keeps-pure P _)

module _ (env : Env) (P : Db → Type 0) (k : IsKept env P) where
  Keeps-finish :
      (m : Mark) (outcome : WebhookOutcome) (d : Option Dispute) (e : Option Thrown)
      → Keeps P (finish env m outcome d e)
  Keeps-finish = Keeps-finish_of env P k.same k.mark

  module _ (input : NewDelivery) (delivery : Delivery) where
    Keeps-handle_created : Keeps P (handle_created env input delivery)
    unfolding handle_created
    Keeps-handle_created =
        Keeps-bind P _ _
          (Keeps-reads P
            (find_transaction_by_processor_id input.processor_code input.payload.transaction_id))
          (λ found. Keeps-or_throw-bind P found (unknown_transaction env input) _ (λ payment.
            Keeps-bind P _ _ (k.opening (open_input env input payment)) (λ opened.
              Keeps-finish (processed_mark delivery opened.dispute.id) dispute_opened
                (some opened.dispute) none)))

    Keeps-handle_status : (s : Option String) → Keeps P (handle_status env input delivery s)
    unfolding handle_status
    Keeps-handle_status none = Keeps-finish _ _ _ _
    Keeps-handle_status (some s) =
        Keeps-bind P _ _ (Keeps-reads P (find_dispute_by_case_number input.payload.case_number))
          (λ found. Keeps-or_throw-bind P found (unknown_case env input) _ (λ dispute.
            Keeps-bind P _ _ (k.change (change_input env input dispute s)) (λ updated.
              Keeps-finish (processed_mark delivery dispute.id) status_changed (some updated)
                none)))

    Keeps-handle : Keeps P (handle env input delivery)
    unfolding handle
    Keeps-handle = Keeps-if P _ _ _ Keeps-handle_created (Keeps-handle_status _)

  pub Keeps-process_recorded :
      (input : NewDelivery) (d : Option Delivery) → Keeps P (process_recorded env input d)
  unfolding process_recorded handle_failure
  Keeps-process_recorded input none = record { at = λ db p. p }
  Keeps-process_recorded input (some d) =
      Keeps-if P _ _ _ (Keeps-catch P _ _ (Keeps-handle input d) (λ x. Keeps-finish _ _ _ _))
        (Keeps-finish _ _ _ _)

  -- `processDelivery` keeps it, if recording the delivery does.
  pub Keeps-process_delivery :
      (input : NewDelivery)
      → ((db : Db) (o : Option Delivery) (db' : Db)
          → P db
          → record_delivery env input db ≡ returned o db'
          → P db')
      → Keeps P (process_delivery env input)
  unfolding process_delivery
  Keeps-process_delivery input recorded =
      Keeps-bind P _ _ (Keeps-with_transaction P (record_delivery env input) k.same recorded)
        (Keeps-process_recorded input)
