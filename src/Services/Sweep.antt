-- ===== src/Services/Sweep.antt =====
-- src/services/disputeService.js: `expireOverdueDisputes`.
pub mod Laws
pub mod Fresh
pub mod Rounds
pub mod Liveness
use chargeback_iq.Prelude.{ℕ, String, Option, none, some, Bool, true, false, List, [], ◌∷◌, length}
use chargeback_iq.Errors.{Thrown, app, database}
use chargeback_iq.Schema.{Db, Env, Dispute, time}
use chargeback_iq.Tx.{M, Outcome, returned, threw, ◌>>=◌, pure, reads, catch, with_transaction}
use chargeback_iq.Repositories.Disputes.Queue.{list_overdue_open_disputes}
use chargeback_iq.Services.DisputeService.{ChangeInput, change_status}

-- An entry of `skipped`.
pub record Skipped : Type 0 where
  pub id : String
  pub status : String
  pub reason : String

-- `err.code ?? err.message`: an AppError and an error of the driver both have a code.
abbrev pub code_of : Thrown → String
code_of (app e) = e.code
code_of (database sqlstate) = sqlstate

-- What one round of the loop pushes.
pub data Pushed : Type 0 where
  expired : (id : String) → Pushed
  skipped : Skipped → Pushed

abbrev pub expiry_of : Dispute → ChangeInput
expiry_of d = record {
  dispute_id = d.id;
  to_status = "EXPIRED";
  triggered_by = "SYSTEM";
  actor_id = none;
  note = some "Response window closed with no submission.";
  payload = ("respondBy", time d.respond_by) ∷ [];
}

module _ (env : Env) where
  -- The body of the loop. The calls of one sweep read one clock.
  unfoldable pub expire_one : Dispute → M Pushed
  expire_one d =
      catch (do updated ← change_status env (expiry_of d); pure (expired updated.id))
        (λ e. pure (skipped (record { id = d.id; status = d.status_code; reason = code_of e })))

  unfoldable pub expire_each : List Dispute → M (List Pushed)
  expire_each [] = pure []
  expire_each (d ∷ ds) = do one ← expire_one d; others ← expire_each ds; pure (one ∷ others)

abbrev pub expired_of : List Pushed → List String
expired_of [] = []
expired_of (expired id ∷ ps) = id ∷ expired_of ps
expired_of (skipped s ∷ ps) = expired_of ps

abbrev pub skipped_of : List Pushed → List Skipped
skipped_of [] = []
skipped_of (expired id ∷ ps) = skipped_of ps
skipped_of (skipped s ∷ ps) = s ∷ skipped_of ps

pub record SweepResult : Type 0 where
  pub expired : List String
  pub skipped : List Skipped
  pub checked : ℕ

-- `now` is the argument, the clock by default; the calls of `changeStatus` read the clock of `env`.
unfoldable pub expire_overdue_disputes : Env → (now : ℕ) → M SweepResult
expire_overdue_disputes env now = do
  overdue ← with_transaction (reads (list_overdue_open_disputes now))
  pushed ← expire_each env overdue
  pure (record {
    expired = expired_of pushed;
    skipped = skipped_of pushed;
    checked = length overdue;
  })
