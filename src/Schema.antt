-- ===== src/Schema.antt =====
-- The rows of the database (migrations/), with the columns that the statements of the source read or
-- write, and the state that a statement finds.
--
-- Rows of one table stand in a list, the newest first. Ids are texts, as the driver returns UUIDs;
-- times are those of Deadlines.antt.
use chargeback_iq.Prelude.{ℕ, String, Option, Bool, List}
use chargeback_iq.Prelude.Int.{ℤ}
use chargeback_iq.Lifecycle.{Transition}
use chargeback_iq.Deadlines.{DeadlineRule, Date}

-- dispute_statuses
pub record Status : Type 0 where
  pub code : String
  pub is_terminal : Bool
  pub is_won : Option Bool
  pub sort_order : ℕ

-- reason_codes, joined with the category's `counts_as_fraud`
pub record ReasonCode : Type 0 where
  pub id : String
  pub network_code : String
  pub code : String
  pub title : String
  pub category_code : String
  pub workflow : String
  pub counts_as_fraud : Bool

-- merchants
pub record Merchant : Type 0 where
  pub id : String
  pub name : String
  pub mid : String
  pub region : String

-- transactions
pub record Payment : Type 0 where
  pub id : String
  pub merchant_id : String
  pub processor_code : String
  pub network_code : String
  pub processor_transaction_id : String
  pub amount_minor : ℤ
  pub currency : String
  pub is_card_present : Bool
  pub avs_result_code : Option String
  pub cvv_matched : Option Bool
  pub three_ds_authenticated : Bool
  pub customer_email : Option String
  pub billing_country : Option String
  pub shipping_country : Option String
  pub occurred_at : ℕ
  pub settled_at : Option ℕ

-- operators
pub record Operator : Type 0 where
  pub id : String
  pub email : String
  pub full_name : String
  pub role : String

-- disputes
pub record Dispute : Type 0 where
  pub id : String
  pub case_number : String
  pub transaction_id : String
  pub network_code : String
  pub reason_code_id : String
  pub status_code : String
  pub root_cause : String
  pub cycle : ℕ
  pub disputed_amount_minor : ℤ
  pub currency : String
  pub dispute_fee_minor : ℤ
  pub provisional_credit_to_cardholder_at : Option ℕ
  pub received_at : ℕ
  pub respond_by : ℕ
  pub assigned_to : Option String
  pub closed_at : Option ℕ
  pub updated_at : ℕ

-- A value in a JSON column.
pub data Json : Type 0 where
  text : String → Json
  number : ℕ → Json
  time : ℕ → Json
  no_value : Json

-- dispute_events
pub record Event : Type 0 where
  pub id : String
  pub dispute_id : String
  pub event_type : String
  pub from_status : Option String
  pub to_status : Option String
  pub actor_type : String
  pub actor_id : Option String
  pub note : Option String
  pub payload : List (String × Json)
  pub occurred_at : ℕ
  pub seq : ℕ

-- evidence_items
pub record Evidence : Type 0 where
  pub id : String
  pub dispute_id : String
  pub kind_code : String
  pub description : Option String
  pub file_ref : Option String
  pub collected_by : Option String
  pub created_at : ℕ

-- evidence_kinds
pub record Kind : Type 0 where
  pub code : String
  pub name : String
  pub description : String

-- evidence_requirements
pub record Requirement : Type 0 where
  pub reason_code_id : String
  pub evidence_kind_code : String
  pub requirement : String

-- The fields of a webhook's JSON body that the source reads, where they are texts and numbers.
pub record Payload : Type 0 where
  pub transaction_id : Option String
  pub case_number : Option String
  pub reason_code : Option String
  pub amount_minor : Option ℤ
  pub currency : Option String
  pub received_at : Option String

-- webhook_deliveries
pub record Delivery : Type 0 where
  pub id : String
  pub processor_code : String
  pub external_event_id : String
  pub event_type : String
  pub payload : Payload
  pub signature_valid : Bool
  pub status : String
  pub dispute_id : Option String
  pub error_message : Option String
  pub processed_at : Option ℕ

-- monthly_volumes; `period_month` is a day.
pub record Volume : Type 0 where
  pub merchant_id : String
  pub network_code : String
  pub period_month : ℕ
  pub transaction_count : ℕ
  pub card_absent_count : ℕ
  pub fraud_report_count : ℕ

-- The tables, and the two generators that a rollback does not reset: the number of UUIDs drawn so
-- far, and the sequence behind `dispute_events.seq`.
pub record Db : Type 0 where
  pub statuses : List Status
  pub transitions : List Transition
  pub rules : List DeadlineRule
  pub reason_codes : List ReasonCode
  pub merchants : List Merchant
  pub payments : List Payment
  pub operators : List Operator
  pub processors : List String
  pub networks : List String
  pub avs_codes : List String
  pub evidence_kinds : List Kind
  pub requirements : List Requirement
  pub volumes : List Volume
  pub disputes : List Dispute
  pub events : List Event
  pub evidence : List Evidence
  pub deliveries : List Delivery
  pub drawn : ℕ
  pub event_seq : ℕ

-- What a request meets outside the program: `new Date()`, the database's `now()`, the results of
-- `gen_random_uuid()` in the order of the calls, `new Date(text)`, and the driver's message for a
-- SQLSTATE code.
pub record Env : Type 0 where
  pub now : ℕ
  pub db_now : ℕ
  pub random_uuid : ℕ → String
  pub parse_date : String → Date
  pub database_message : String → String
