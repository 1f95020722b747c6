-- ===== src/Demo/Cases.antt =====
-- scripts/seed.js: the cases of the demo, each taken through the service layer. `now` is the time at
-- which the script was loaded, and `n` the number of payments made so far.
use Prim.Native.String.{◌++◌}
use chargeback_iq.Prelude.{ℕ, suc, ◌+◌, ◌*◌, String, Option, none, some, false, true, List, [], ◌∷◌}
use chargeback_iq.Prelude.Int.{pos}
use chargeback_iq.Schema.{Env, Dispute, Evidence, Merchant, Payment, Operator}
use chargeback_iq.Tx.{M, ◌>>=◌, ◌>>◌, pure}
use chargeback_iq.Services.DisputeService.{OpenedDispute, open_dispute, change_status}
use chargeback_iq.Services.Evidence.{add_evidence}
use chargeback_iq.Demo.Rows.{hours_ago, padded, no_options, create_transaction, set_respond_by}

-- A fresh case.
pub record FreshSpec : Type 0 where
  pub reason : String
  pub hours : ℕ
  pub amount : ℕ

abbrev pub fresh_specs : List FreshSpec
fresh_specs =
    record { reason = "10.4"; hours = 2; amount = 45_000 }
    ∷ record { reason = "13.1"; hours = 26; amount = 12_500 }
    ∷ record { reason = "13.3"; hours = 96; amount = 8_900 }
    ∷ record { reason = "12.6"; hours = 340; amount = 30_000 }
    ∷ []

abbrev pub representment_kinds : List String
representment_kinds =
    "AVS_RESPONSE" ∷ "CVV_RESPONSE" ∷ "THREE_DS_RECORD" ∷ "PRIOR_TRANSACTION_HISTORY" ∷ []

module _ (env : Env) (now : ℕ) where
  -- `service.openDispute` with the four values that the script gives.
  abbrev pub open_case :
      (case_number : String) → Payment → (reason_code : String) → (hours : ℕ) → M OpenedDispute
  open_case case_number txn reason_code hours = open_dispute env (record {
    transaction_id = txn.id;
    reason_code = some reason_code;
    case_number = some case_number;
    received_at = some (hours_ago now hours);
    root_cause = none;
    cycle = none;
    disputed_amount_minor = none;
    currency = none;
    dispute_fee_minor = none;
  })

  -- `service.changeStatus`
  abbrev pub move_case :
      OpenedDispute
      → (to_status triggered_by : String) → (actor_id note : Option String) → M Dispute
  move_case d to_status triggered_by actor_id note = change_status env (record {
    dispute_id = d.dispute.id;
    to_status = to_status;
    triggered_by = triggered_by;
    actor_id = actor_id;
    note = note;
    payload = [];
  })

  -- `service.addEvidence`
  abbrev pub file_evidence :
      OpenedDispute → (kind_code collected_by description : String) → M Evidence
  file_evidence d kind_code collected_by description = add_evidence env (record {
    dispute_id = d.dispute.id;
    kind_code = kind_code;
    description = some description;
    file_ref = none;
    collected_by = some collected_by;
  })

  -- 1. Cases of various ages in the queue; `i` is the index of the loop.
  unfoldable pub open_fresh : Merchant → (i n : ℕ) → List FreshSpec → M (List OpenedDispute)
  open_fresh eu i n [] = pure []
  open_fresh eu i n (spec ∷ specs) = do
    txn ←
        create_transaction env now eu n
          (record no_options { amount_minor = some (pos spec.amount) })
    d ← open_case ("DEMO-EU-" ++ padded 3 (i + 1)) txn spec.reason spec.hours
    others ← open_fresh eu (suc i) (suc n) specs
    pure (d ∷ others)

  unfoldable pub collect_each : OpenedDispute → (analyst : Operator) → List String → M (Unit {0})
  collect_each d analyst [] = pure tt
  collect_each d analyst (kind ∷ kinds) = do
    file_evidence d kind analyst.id ("Collected for representment (" ++ kind ++ ").")
    collect_each d analyst kinds

  -- 2. A case fought and won.
  unfoldable pub fight_and_win : Merchant → (analyst : Operator) → (n : ℕ) → M OpenedDispute
  fight_and_win eu analyst n = do
    txn ←
        create_transaction env now eu n
          (record no_options { amount_minor = some (pos 62_000); three_ds = some true })
    d ← open_case "DEMO-EU-WON-001" txn "10.4" (24 * 10)
    move_case d "UNDER_REVIEW" "OPERATOR" (some analyst.id)
        (some "Full AVS and 3DS on file; worth fighting.")
    collect_each d analyst representment_kinds
    move_case d "REPRESENTED" "OPERATOR" (some analyst.id) none
    move_case d "WON" "PROCESSOR_EVENT" none
        (some "Issuer accepted the compelling evidence package.")
    pure d

  -- 3. A case fought and lost.
  unfoldable pub fight_and_lose : Merchant → (analyst : Operator) → (n : ℕ) → M OpenedDispute
  fight_and_lose eu analyst n = do
    txn ←
        create_transaction env now eu n
          (record no_options { amount_minor = some (pos 19_900); avs = some "N"; cvv = some false })
    d ← open_case "DEMO-EU-LOST-001" txn "13.1" (24 * 12)
    move_case d "UNDER_REVIEW" "OPERATOR" (some analyst.id) none
    file_evidence d "PROOF_OF_SHIPPING" analyst.id "Carrier label only; no signature captured."
    move_case d "REPRESENTED" "OPERATOR" (some analyst.id) none
    move_case d "LOST" "PROCESSOR_EVENT" none
        (some "No proof of delivery; issuer upheld the dispute.")
    pure d

  -- 4. A case conceded on purpose.
  unfoldable pub concede : Merchant → (analyst manager : Operator) → (n : ℕ) → M OpenedDispute
  concede eu analyst manager n = do
    txn ← create_transaction env now eu n (record no_options { amount_minor = some (pos 2_200) })
    d ← open_case "DEMO-EU-ACCEPTED-001" txn "13.6" (24 * 6)
    move_case d "UNDER_REVIEW" "OPERATOR" (some analyst.id) none
    move_case d "ACCEPTED" "OPERATOR" (some manager.id)
        (some "USD 22 case; representment costs more than the disputed amount.")
    pure d

  -- 5. A case that expired.
  unfoldable pub let_expire : Merchant → (n : ℕ) → M OpenedDispute
  let_expire eu n = do
    txn ← create_transaction env now eu n (record no_options { amount_minor = some (pos 15_000) })
    d ← open_case "DEMO-EU-EXPIRED-001" txn "13.2" (24 * 40)
    set_respond_by d.dispute.id (hours_ago now (24 * 22))
    move_case d "EXPIRED" "SYSTEM" none (some "Response window closed with no submission.")
    pure d

  -- 6. Mastercard cases on the CEMEA merchant; `i` is the index of the loop.
  unfoldable pub open_mastercard : Merchant → (i n : ℕ) → List String → M (List OpenedDispute)
  open_mastercard jo i n [] = pure []
  open_mastercard jo i n (reason ∷ reasons) = do
    txn ← create_transaction env now jo n (record no_options {
      network = some "MASTERCARD";
      processor = some "CHECKOUT_COM";
      amount_minor = some (pos 40_000);
    })
    d ← open_case ("DEMO-JO-" ++ padded 3 (i + 1)) txn reason (24 * (2 + i * 3))
    others ← open_mastercard jo (suc i) (suc n) reasons
    pure (d ∷ others)
