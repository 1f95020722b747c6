-- ===== src/Demo/Script.antt =====
-- scripts/seed.js: `run`, and the exit code. The texts on the console are outside the model, but for the
-- values that they show.
pub mod Laws
pub mod Runs
pub mod Order
use chargeback_iq.Prelude.{ℕ, suc, ◌+◌, ◌-◌, ◌*◌, String, Option, none, some, List, [], ◌∷◌, length}
use mathlib.Core.List.{◌++◌ as append}
use chargeback_iq.Errors.{database}
use chargeback_iq.Deadlines.{Date, at, invalid}
use chargeback_iq.Schema.{Db, Env, Volume, Merchant, Operator}
use chargeback_iq.Tx.{M, Outcome, returned, threw, ◌>>=◌, ◌>>◌, pure}
use chargeback_iq.Repositories.Volumes.{Calendar, month_start, NewVolume, upsert_monthly_volume}
use chargeback_iq.Services.DisputeService.{OpenedDispute}
use chargeback_iq.Demo.Wipe.{wipe}
use chargeback_iq.Demo.Rows.{months_back, create_merchant, create_operator}
use chargeback_iq.Demo.Cases.{
  fresh_specs, open_fresh, fight_and_win, fight_and_lose, concede, let_expire, open_mastercard,
}

module _ (cal : Calendar) where
  -- `upsertMonthlyVolume` with a Date; an Invalid Date is no date.
  abbrev pub upsert_at : Date → (ℕ → NewVolume) → M Volume
  upsert_at invalid v db = threw (database "22007") db
  upsert_at (at t) v db = upsert_monthly_volume cal (v t) db

  abbrev visa_volume : Merchant → (idx : ℕ) → ℕ → NewVolume
  visa_volume merchant idx period = record {
    merchant_id = merchant.id;
    network_code = "VISA";
    period_month = period;
    transaction_count = some (42_000 - idx * 6_000);
    card_absent_count = some (42_000 - idx * 6_000);
    fraud_report_count = some (380 - idx * 40);
  }

  abbrev mastercard_volume : Merchant → (idx : ℕ) → ℕ → NewVolume
  mastercard_volume merchant idx period = record {
    merchant_id = merchant.id;
    network_code = "MASTERCARD";
    period_month = period;
    transaction_count = some (9_000 - idx * 2_500);
    card_absent_count = some (9_000 - idx * 2_500);
    fraud_report_count = some 60;
  }

  unfoldable pub fill_month : (idx : ℕ) → Date → List Merchant → M (Unit {0})
  fill_month idx period [] = pure tt
  fill_month idx period (merchant ∷ merchants) = do
    upsert_at period (visa_volume merchant idx)
    upsert_at period (mastercard_volume merchant idx)
    fill_month idx period merchants

  -- 7. Monthly volumes; `idx` is the index of the outer loop.
  unfoldable pub fill_months : (idx : ℕ) → List Merchant → List Date → M (Unit {0})
  fill_months idx merchants [] = pure tt
  fill_months idx merchants (period ∷ periods) = do
    fill_month idx period merchants
    fill_months (suc idx) merchants periods

-- What the last lines of the script show.
pub record Seeded : Type 0 where
  pub eu : Merchant
  pub jo : Merchant
  pub created : List OpenedDispute
  pub periods : List Date

module _ (cal : Calendar) (lower : String → String) (env : Env) (now : ℕ) where
  -- Sections 1 to 6, in their order; every case takes a payment of its own.
  unfoldable pub create_cases :
      (eu jo : Merchant) → (analyst manager : Operator) → M (List OpenedDispute)
  create_cases eu jo analyst manager = do
    fresh ← open_fresh env now eu 0 0 fresh_specs
    won ← fight_and_win env now eu analyst 4
    lost ← fight_and_lose env now eu analyst 5
    accepted ← concede env now eu analyst manager 6
    expired ← let_expire env now eu 7
    mastercard ← open_mastercard env now jo 0 8 ("4837" ∷ "4853" ∷ "4855" ∷ [])
    pure (append fresh (won ∷ lost ∷ accepted ∷ expired ∷ mastercard))

  unfoldable pub create_demo : M Seeded
  create_demo = do
    eu ← create_merchant env "Northwind Digital (EU)" "DEMO-EU-001" "EU"
    jo ← create_merchant env "Levant Commerce (CEMEA)" "DEMO-CEMEA-001" "CEMEA"
    analyst ← create_operator lower env "demo-analyst@example.com" "Demo Analyst" "ANALYST"
    manager ← create_operator lower env "demo-manager@example.com" "Demo Manager" "MANAGER"
    created ← create_cases eu jo analyst manager
    let periods = month_start cal now ∷ months_back cal now 1 ∷ months_back cal now 2 ∷ []
    fill_months cal 0 (eu ∷ jo ∷ []) periods
    pure (record { eu = eu; jo = jo; created = created; periods = periods })

  unfoldable pub run : M Seeded
  run = do wipe; create_demo

-- `process.exitCode = 1` in the handler of a failure.
abbrev pub exit_code : Outcome Seeded → ℕ
exit_code (returned s db) = 0
exit_code (threw e db) = 1
