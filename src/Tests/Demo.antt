-- ===== src/Tests/Demo.antt =====
-- The demo data: a merchant of the demo with one case, and a state in which an operator of the demo is
-- needed.
use chargeback_iq.Prelude.{some, true, false, [], ◌∷◌, ◌≡◌, refl, dec_text, if◌then◌else◌}
use chargeback_iq.Errors.{database}
use chargeback_iq.Schema.{Db}
use chargeback_iq.Tx.{returned, threw}
use chargeback_iq.Demo.Wipe.{wipe, in_scope, is_scoped}
use chargeback_iq.Demo.Wipe.Ends.{wiped, is_demo_operator_needed, wipe_ends}
use chargeback_iq.Demo.Script.{run}
use chargeback_iq.Demo.Script.Runs.{run-eq-threw}
use chargeback_iq.Tests.World.{env, empty_db, first_dispute}
use chargeback_iq.Tests.Programmes.{even}

-- The case of the demo, assigned to an operator of the demo.
abbrev demo_db : Db
demo_db = record empty_db {
  merchants = record { id = "m1"; name = "Northwind"; mid = "DEMO-EU-001"; region = "EU" } ∷ [];
  operators =
      record { id = "op1"; email = "ann@shop.example"; full_name = "Ann"; role = "ANALYST" }
      ∷ record {
        id = "op2";
        email = "demo-analyst@example.com";
        full_name = "Demo";
        role = "ANALYST";
      }
      ∷ [];
  disputes = record first_dispute { assigned_to = some "op2" } ∷ [];
}

-- The same operator on a case of another merchant.
abbrev needed_db : Db
needed_db = record demo_db { merchants = empty_db.merchants }

unneeded : is_demo_operator_needed demo_db ≡ false
unfolding is_scoped in_scope dec_text
unneeded = refl

needed : is_demo_operator_needed needed_db ≡ true
unfolding is_scoped in_scope dec_text
needed = refl

wipe_ends_example : wipe demo_db ≡ (
    if is_demo_operator_needed demo_db
    then threw (database "23503") demo_db
    else returned tt (wiped demo_db))
wipe_ends_example = wipe_ends demo_db

cleared : wiped demo_db ≡ record empty_db { merchants = []; payments = [] }
unfolding is_scoped in_scope dec_text
cleared = refl

run-eq-threw_test : run even (λ s. s) env 5_000 needed_db ≡ threw (database "23503") needed_db
run-eq-threw_test = run-eq-threw even (λ s. s) env 5_000 needed_db needed
