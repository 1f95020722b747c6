-- ===== src/Seeds.antt =====
-- The reference data of the lifecycle (migrations/003_seed_reference_data.sql).
pub mod Runs
pub mod Keys
use chargeback_iq.Prelude.{String, Option, none, some, Bool, true, false, List, [], ◌∷◌}
use chargeback_iq.Lifecycle.{Transition}
use chargeback_iq.Deadlines.{DeadlineRule}
use chargeback_iq.Schema.{Status}

abbrev row : (from to by : String) → Bool → (description : String) → Transition
row from to by evidence description = record {
  from_status = from;
  to_status = to;
  triggered_by = by;
  requires_evidence = evidence;
  description = description;
}

-- status_transitions
abbrev pub seeded_transitions : List Transition
seeded_transitions =
    row "PRE_DISPUTE_ALERT" "CHARGEBACK_RECEIVED" "PROCESSOR_EVENT" false
      "Alert was not resolved in time and became a formal chargeback."
    ∷ row "PRE_DISPUTE_ALERT" "WITHDRAWN" "OPERATOR" false
        "Resolved at the alert stage, typically by refunding before the chargeback is filed."
    ∷ row "INQUIRY" "CHARGEBACK_RECEIVED" "PROCESSOR_EVENT" false
        "The issuer escalated the inquiry into a chargeback."
    ∷ row "INQUIRY" "WITHDRAWN" "PROCESSOR_EVENT" false
        "The issuer was satisfied by the information supplied."
    ∷ row "CHARGEBACK_RECEIVED" "UNDER_REVIEW" "OPERATOR" false
        "An operator picked the case up for assessment."
    ∷ row "CHARGEBACK_RECEIVED" "EXPIRED" "SYSTEM" false
        "The response deadline passed with no action."
    ∷ row "UNDER_REVIEW" "ACCEPTED" "OPERATOR" false "Decision taken not to contest."
    ∷ row "UNDER_REVIEW" "REPRESENTED" "OPERATOR" true
        "Evidence package submitted to contest the chargeback."
    ∷ row "UNDER_REVIEW" "EXPIRED" "SYSTEM" false
        "The response deadline passed while the case sat in review."
    ∷ row "REPRESENTED" "WON" "PROCESSOR_EVENT" false "The issuer accepted the evidence."
    ∷ row "REPRESENTED" "LOST" "PROCESSOR_EVENT" false
        "The issuer rejected the evidence and did not escalate."
    ∷ row "REPRESENTED" "PRE_ARBITRATION" "PROCESSOR_EVENT" false
        "The issuer rejected the evidence and escalated."
    ∷ row "PRE_ARBITRATION" "ARBITRATION" "OPERATOR" true
        "Contested again; the network will decide."
    ∷ row "PRE_ARBITRATION" "ACCEPTED" "OPERATOR" false "Conceded rather than pay arbitration fees."
    ∷ row "PRE_ARBITRATION" "LOST" "PROCESSOR_EVENT" false
        "Resolved against the merchant at pre-arbitration."
    ∷ row "PRE_ARBITRATION" "EXPIRED" "SYSTEM" false
        "The pre-arbitration response window passed with no action."
    ∷ row "ARBITRATION" "WON" "PROCESSOR_EVENT" false "The network ruled for the merchant."
    ∷ row "ARBITRATION" "LOST" "PROCESSOR_EVENT" false "The network ruled against the merchant."
    ∷ []

-- dispute_statuses
abbrev pub seeded_statuses : List Status
seeded_statuses =
    record { code = "PRE_DISPUTE_ALERT"; is_terminal = false; is_won = none; sort_order = 10 }
    ∷ record { code = "INQUIRY"; is_terminal = false; is_won = none; sort_order = 20 }
    ∷ record { code = "CHARGEBACK_RECEIVED"; is_terminal = false; is_won = none; sort_order = 30 }
    ∷ record { code = "UNDER_REVIEW"; is_terminal = false; is_won = none; sort_order = 40 }
    ∷ record { code = "ACCEPTED"; is_terminal = true; is_won = some false; sort_order = 50 }
    ∷ record { code = "REPRESENTED"; is_terminal = false; is_won = none; sort_order = 60 }
    ∷ record { code = "PRE_ARBITRATION"; is_terminal = false; is_won = none; sort_order = 70 }
    ∷ record { code = "ARBITRATION"; is_terminal = false; is_won = none; sort_order = 80 }
    ∷ record { code = "WON"; is_terminal = true; is_won = some true; sort_order = 90 }
    ∷ record { code = "LOST"; is_terminal = true; is_won = some false; sort_order = 100 }
    ∷ record { code = "EXPIRED"; is_terminal = true; is_won = some false; sort_order = 110 }
    ∷ record { code = "WITHDRAWN"; is_terminal = true; is_won = some true; sort_order = 120 }
    ∷ []

-- deadline_rules
abbrev pub seeded_rules : List DeadlineRule
seeded_rules =
    record {
      network_code = "VISA";
      stage = "CHARGEBACK_RECEIVED";
      region = "DEFAULT";
      processor_code = none;
      response_days = 30;
      warn_days_before = 5;
    }
    ∷ record {
      network_code = "VISA";
      stage = "CHARGEBACK_RECEIVED";
      region = "US";
      processor_code = none;
      response_days = 9;
      warn_days_before = 3;
    }
    ∷ record {
      network_code = "VISA";
      stage = "CHARGEBACK_RECEIVED";
      region = "CA";
      processor_code = none;
      response_days = 9;
      warn_days_before = 3;
    }
    ∷ record {
      network_code = "VISA";
      stage = "CHARGEBACK_RECEIVED";
      region = "EU";
      processor_code = none;
      response_days = 18;
      warn_days_before = 4;
    }
    ∷ record {
      network_code = "VISA";
      stage = "PRE_ARBITRATION";
      region = "DEFAULT";
      processor_code = none;
      response_days = 30;
      warn_days_before = 5;
    }
    ∷ record {
      network_code = "VISA";
      stage = "ARBITRATION";
      region = "DEFAULT";
      processor_code = none;
      response_days = 10;
      warn_days_before = 2;
    }
    ∷ record {
      network_code = "MASTERCARD";
      stage = "CHARGEBACK_RECEIVED";
      region = "DEFAULT";
      processor_code = none;
      response_days = 45;
      warn_days_before = 7;
    }
    ∷ record {
      network_code = "MASTERCARD";
      stage = "PRE_ARBITRATION";
      region = "DEFAULT";
      processor_code = none;
      response_days = 30;
      warn_days_before = 5;
    }
    ∷ record {
      network_code = "MASTERCARD";
      stage = "ARBITRATION";
      region = "DEFAULT";
      processor_code = none;
      response_days = 10;
      warn_days_before = 2;
    }
    ∷ []
