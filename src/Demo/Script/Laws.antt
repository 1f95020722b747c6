-- ===== src/Demo/Script/Laws.antt =====
-- What the writes of the script for the demo data keep.
use chargeback_iq.Prelude.{
  ℕ, suc, String, Option, none, some, Bool, true, false, List, [], ◌∷◌, refl, sym, subst,
  if◌then◌else◌,
}
use chargeback_iq.Errors.{database}
use chargeback_iq.Deadlines.{Date, at, invalid}
use chargeback_iq.Schema.{Db, Env, Volume, Merchant, Operator, Payment}
use chargeback_iq.Tx.{M, returned, threw, ◌>>=◌, ◌>>◌, write_unless}
use chargeback_iq.Tx.Keeps.{Keeps, Keeps-bind, Keeps-pure, state_of}
use chargeback_iq.Repositories.Disputes.{draw_uuid, has_id, replace}
use chargeback_iq.Repositories.Volumes.{Calendar, NewVolume, upsert_monthly_volume}
use chargeback_iq.Services.DisputeService.{
  OpenInput, OpenedDispute, open_dispute, ChangeInput, change_status,
}
use chargeback_iq.Services.Calls.Keeps.{IsPreserved, Keeps-open_dispute, Keeps-change_status}
use chargeback_iq.Demo.Wipe.{wipe}
use chargeback_iq.Demo.Wipe.Ends.{wiped, wipe_ends, is_demo_operator_needed}
use chargeback_iq.Demo.Rows.{
  create_merchant, create_operator, create_transaction, PaymentOptions, insert_payment,
  set_respond_by, with_respond_by,
}
use chargeback_iq.Demo.Script.{fill_month, fill_months, upsert_at}

-- A property that the script's own writes keep as well as those of the services.
pub record IsSeedable (P : Db → Type 0) : Type 0 where
  pub calls : IsPreserved P
  pub cleared : (db : Db) → P db → P (wiped db)
  pub merchants : (db : Db) (ms : List Merchant) → P db → P (record db { merchants = ms })
  pub operators : (db : Db) (os : List Operator) → P db → P (record db { operators = os })
  pub payments : (db : Db) (ts : List Payment) → P db → P (record db { payments = ts })
  pub volumes : (db : Db) (vs : List Volume) → P db → P (record db { volumes = vs })
  pub due :
      (db : Db) (id : String) (t : ℕ)
      → P db
      → P (record db { disputes = replace (has_id id) (with_respond_by t) db.disputes })

module _ (P : Db → Type 0) (k : IsSeedable P) where
  written :
      {A : Type 0} (v : Option String) (a : A) (after db : Db)
      → P after
      → P db
      → P (state_of (write_unless v a after db))
  written none a after db p q = p
  written (some code) a after db p q = q

  drawn : (db : Db) → P db → P (draw_uuid db)
  drawn db p = k.calls.same db (draw_uuid db) (suc db.drawn, db.event_seq, refl) p

  pub Keeps-wipe : Keeps P wipe
  Keeps-wipe = record {
    at = λ db p.
        subst (λ o. P (state_of o)) (sym (wipe_ends db)) (ended db p (is_demo_operator_needed db));
  }
    where
      ended :
          (db : Db)
          → P db
          → (b : Bool)
          → P (state_of (if b then threw (database "23503") db else returned tt (wiped db)))
      ended db p true = p
      ended db p false = k.cleared db p

  Keeps-upsert_at :
      (cal : Calendar) (period : Date) (v : ℕ → NewVolume) → Keeps P (upsert_at cal period v)
  unfolding upsert_monthly_volume
  Keeps-upsert_at cal invalid v = record { at = λ db p. p }
  Keeps-upsert_at cal (at t) v = record { at = λ db p. written _ _ _ db (k.volumes db _ p) p }

  Keeps-fill_month :
      (cal : Calendar) (idx : ℕ) (period : Date) (ms : List Merchant)
      → Keeps P (fill_month cal idx period ms)
  unfolding fill_month
  Keeps-fill_month cal idx period [] = Keeps-pure P tt
  Keeps-fill_month cal idx period (m ∷ ms) = Keeps-bind P _ _ (Keeps-upsert_at cal period _) (λ _.
      Keeps-bind P _ _ (Keeps-upsert_at cal period _) (λ _. Keeps-fill_month cal idx period ms))

  pub Keeps-fill_months :
      (cal : Calendar) (idx : ℕ) (ms : List Merchant) (periods : List Date)
      → Keeps P (fill_months cal idx ms periods)
  unfolding fill_months
  Keeps-fill_months cal idx ms [] = Keeps-pure P tt
  Keeps-fill_months cal idx ms (period ∷ periods) =
      Keeps-bind P _ _ (Keeps-fill_month cal idx period ms)
        (λ _. Keeps-fill_months cal (suc idx) ms periods)

  pub Keeps-set_respond_by : (id : String) (t : Date) → Keeps P (set_respond_by id t)
  unfolding set_respond_by
  Keeps-set_respond_by id invalid = record { at = λ db p. p }
  Keeps-set_respond_by id (at t) = record { at = λ db p. written _ _ _ db (k.due db id t p) p }

  module _ (env : Env) where
    pub Keeps-create_merchant :
        (name mid region : String) → Keeps P (create_merchant env name mid region)
    unfolding create_merchant
    Keeps-create_merchant name mid region = record {
      at = λ db p.
          written _ _ _ (draw_uuid db) (k.merchants (draw_uuid db) _ (drawn db p)) (drawn db p);
    }

    pub Keeps-create_operator :
        (lower : String → String) (email full_name role : String)
        → Keeps P (create_operator lower env email full_name role)
    unfolding create_operator
    Keeps-create_operator lower email full_name role = record {
      at = λ db p.
          written _ _ _ (draw_uuid db) (k.operators (draw_uuid db) _ (drawn db p)) (drawn db p);
    }

    Keeps-insert_payment :
        (m : Merchant) (i : ℕ) (opts : PaymentOptions) (id : String) (t : Date)
        → Keeps P (insert_payment m i opts id t)
    Keeps-insert_payment m i opts id invalid = record { at = λ db p. p }
    Keeps-insert_payment m i opts id (at t) = record {
      at = λ db p. written _ _ _ db (k.payments db _ p) p;
    }

    module _ (now : ℕ) where
      Keeps-create_transaction :
          (m : Merchant) (i : ℕ) (opts : PaymentOptions)
          → Keeps P (create_transaction env now m i opts)
      unfolding create_transaction
      Keeps-create_transaction m i opts = record {
        at = λ db p. (Keeps-insert_payment m i opts _ _).at (draw_uuid db) (drawn db p);
      }

      -- The start of a case: a payment, and the opening of a dispute about it.
      pub Keeps_case :
          {A : Type 0} (m : Merchant) (i : ℕ) (opts : PaymentOptions) (input : Payment → OpenInput)
          (f : OpenedDispute → M A)
          → ((d : OpenedDispute) → Keeps P (f d))
          → Keeps P
              (create_transaction env now m i opts >>= λ txn. open_dispute env (input txn) >>= f)
      Keeps_case m i opts input f kf =
          Keeps-bind P _ _ (Keeps-create_transaction m i opts)
            (λ txn. Keeps-bind P _ _ (Keeps-open_dispute P k.calls env (input txn)) kf)

    pub Keeps_move :
        {A : Type 0} (input : ChangeInput) (m : M A)
        → Keeps P m
        → Keeps P (change_status env input >> m)
    Keeps_move input m km = Keeps-bind P _ _ (Keeps-change_status P k.calls env input) (λ _. km)
