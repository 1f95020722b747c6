-- ===== src/Services/Calls.antt =====
-- Runs of the service layer (src/services): sequences of its calls, as the routes make them.
pub mod Keeps
use chargeback_iq.Prelude.{ℕ, ◌≡◌}
use chargeback_iq.Schema.{Db, Env}
use chargeback_iq.Tx.Keeps.{state_of}
use chargeback_iq.Repositories.Disputes.{NewEvidence}
use chargeback_iq.Repositories.Webhooks.{NewDelivery}
use chargeback_iq.Services.DisputeService.{OpenInput, open_dispute, ChangeInput, change_status}
use chargeback_iq.Services.Evidence.{add_evidence}
use chargeback_iq.Services.Sweep.{expire_overdue_disputes}
use chargeback_iq.Services.WebhookService.{process_delivery}

-- One call of the service layer, with whatever it meets outside, and however it ends.
pub data Step (s t : Db) : Type 0 where
  opening : (env : Env) (input : OpenInput) → t ≡ state_of (open_dispute env input s) → Step s t
  change : (env : Env) (input : ChangeInput) → t ≡ state_of (change_status env input s) → Step s t
  evidence : (env : Env) (input : NewEvidence) → t ≡ state_of (add_evidence env input s) → Step s t
  sweep : (env : Env) (now : ℕ) → t ≡ state_of (expire_overdue_disputes env now s) → Step s t
  webhook :
      (env : Env) (input : NewDelivery) → t ≡ state_of (process_delivery env input s) → Step s t

-- A sequence of calls.
pub data Reach (s : Db) : Db → Type 0 where
  here : Reach s s
  next : {t u : Db} → Reach s t → Step t u → Reach s u
