-- ===== src/Demo/Script/Runs.antt =====
-- The script for the demo data as a whole: what it keeps, and when it does nothing.
use chargeback_iq.Prelude.{ℕ, suc, String, true, List, [], ◌∷◌, ◌≡◌, ap, ◌∙◌, if◌then◌else◌}
use chargeback_iq.Errors.{database}
use chargeback_iq.Schema.{Db, Env, Merchant, Operator}
use chargeback_iq.Tx.{returned, threw}
use chargeback_iq.Tx.Keeps.{Keeps, Keeps-bind, Keeps-pure}
use chargeback_iq.Repositories.Volumes.{Calendar}
use chargeback_iq.Services.DisputeService.{OpenedDispute}
use chargeback_iq.Services.Calls.Keeps.{Keeps-add_evidence}
use chargeback_iq.Demo.Wipe.Ends.{wiped, wipe_ends, is_demo_operator_needed}
use chargeback_iq.Demo.Cases.{
  FreshSpec, open_fresh, collect_each, fight_and_win, fight_and_lose, concede, let_expire,
  open_mastercard, fresh_specs, representment_kinds,
}
use chargeback_iq.Demo.Script.{create_cases, create_demo, run}
use chargeback_iq.Demo.Script.Laws.{
  IsSeedable, Keeps-wipe, Keeps-fill_months, Keeps-set_respond_by, Keeps-create_merchant,
  Keeps-create_operator, Keeps_case, Keeps_move,
}

module _ (P : Db → Type 0) (k : IsSeedable P) (env : Env) (now : ℕ) where
  Keeps-open_fresh :
      (eu : Merchant) (i n : ℕ) (specs : List FreshSpec) → Keeps P (open_fresh env now eu i n specs)
  unfolding open_fresh
  Keeps-open_fresh eu i n [] = Keeps-pure P []
  Keeps-open_fresh eu i n (spec ∷ specs) =
      Keeps_case P k env now eu n _ _ _ (λ d.
        Keeps-bind P _ _ (Keeps-open_fresh eu (suc i) (suc n) specs) (λ others. Keeps-pure P _))

  Keeps-open_mastercard :
      (jo : Merchant) (i n : ℕ) (reasons : List String)
      → Keeps P (open_mastercard env now jo i n reasons)
  unfolding open_mastercard
  Keeps-open_mastercard jo i n [] = Keeps-pure P []
  Keeps-open_mastercard jo i n (reason ∷ reasons) = Keeps_case P k env now jo n _ _ _ (λ d.
      Keeps-bind P _ _ (Keeps-open_mastercard jo (suc i) (suc n) reasons)
        (λ others. Keeps-pure P _))

  Keeps-collect_each :
      (d : OpenedDispute) (analyst : Operator) (kinds : List String)
      → Keeps P (collect_each env now d analyst kinds)
  unfolding collect_each
  Keeps-collect_each d analyst [] = Keeps-pure P tt
  Keeps-collect_each d analyst (kind ∷ kinds) =
      Keeps-bind P _ _ (Keeps-add_evidence P k.calls env _)
        (λ _. Keeps-collect_each d analyst kinds)

  Keeps-fight_and_win :
      (eu : Merchant) (analyst : Operator) (n : ℕ) → Keeps P (fight_and_win env now eu analyst n)
  unfolding fight_and_win
  Keeps-fight_and_win eu analyst n = Keeps_case P k env now eu n _ _ _ (λ d.
      Keeps_move P k env _ _ (
        Keeps-bind P _ _ (Keeps-collect_each d analyst representment_kinds)
          (λ _. Keeps_move P k env _ _ (Keeps_move P k env _ _ (Keeps-pure P d)))))

  Keeps-fight_and_lose :
      (eu : Merchant) (analyst : Operator) (n : ℕ) → Keeps P (fight_and_lose env now eu analyst n)
  unfolding fight_and_lose
  Keeps-fight_and_lose eu analyst n = Keeps_case P k env now eu n _ _ _ (λ d.
      Keeps_move P k env _ _ (
        Keeps-bind P _ _ (Keeps-add_evidence P k.calls env _)
          (λ _. Keeps_move P k env _ _ (Keeps_move P k env _ _ (Keeps-pure P d)))))

  Keeps-concede :
      (eu : Merchant) (analyst manager : Operator) (n : ℕ)
      → Keeps P (concede env now eu analyst manager n)
  unfolding concede
  Keeps-concede eu analyst manager n =
      Keeps_case P k env now eu n _ _ _
        (λ d. Keeps_move P k env _ _ (Keeps_move P k env _ _ (Keeps-pure P d)))

  Keeps-let_expire : (eu : Merchant) (n : ℕ) → Keeps P (let_expire env now eu n)
  unfolding let_expire
  Keeps-let_expire eu n = Keeps_case P k env now eu n _ _ _ (λ d.
      Keeps-bind P _ _ (Keeps-set_respond_by P k d.dispute.id _)
        (λ _. Keeps_move P k env _ _ (Keeps-pure P d)))

  module _ (cal : Calendar) (lower : String → String) where
    Keeps-create_cases :
        (eu jo : Merchant) (analyst manager : Operator)
        → Keeps P (create_cases cal lower env now eu jo analyst manager)
    unfolding create_cases
    Keeps-create_cases eu jo analyst manager =
        Keeps-bind P _ _ (Keeps-open_fresh eu 0 0 fresh_specs) (λ fresh.
          Keeps-bind P _ _ (Keeps-fight_and_win eu analyst 4) (λ won.
            Keeps-bind P _ _ (Keeps-fight_and_lose eu analyst 5) (λ lost.
              Keeps-bind P _ _ (Keeps-concede eu analyst manager 6) (λ accepted.
                Keeps-bind P _ _ (Keeps-let_expire eu 7) (λ expired.
                  Keeps-bind P _ _ (Keeps-open_mastercard jo 0 8 ("4837" ∷ "4853" ∷ "4855" ∷ []))
                    (λ mastercard. Keeps-pure P _))))))

    Keeps-create_demo : Keeps P (create_demo cal lower env now)
    unfolding create_demo
    Keeps-create_demo = Keeps-bind P _ _ (Keeps-create_merchant P k env _ _ _) (λ eu.
        Keeps-bind P _ _ (Keeps-create_merchant P k env _ _ _) (λ jo.
          Keeps-bind P _ _ (Keeps-create_operator P k env lower _ _ _) (λ analyst.
            Keeps-bind P _ _ (Keeps-create_operator P k env lower _ _ _) (λ manager.
              Keeps-bind P _ _ (Keeps-create_cases eu jo analyst manager) (λ created.
                Keeps-bind P _ _ (Keeps-fill_months P k cal 0 (eu ∷ jo ∷ []) _)
                  (λ _. Keeps-pure P _))))))

    -- However the script ends, it keeps what each of its writes keeps.
    pub Keeps-run : Keeps P (run cal lower env now)
    unfolding run
    Keeps-run = Keeps-bind P _ _ (Keeps-wipe P k) (λ _. Keeps-create_demo)

-- Where a row outside the demo names an operator of the demo, the script fails and changes nothing.
pub run-eq-threw :
    (cal : Calendar) (lower : String → String) (env : Env) (now : ℕ) (db : Db)
    → is_demo_operator_needed db ≡ true
    → run cal lower env now db ≡ threw (database "23503") db
unfolding run
run-eq-threw cal lower env now db h =
    ap
      (λ o. elim o [
        | returned u mid ↦ create_demo cal lower env now mid
        | threw e mid ↦ threw e mid
      ])
      (wipe_ends db ∙ ap (λ b. if b then threw (database "23503") db else returned tt (wiped db)) h)
