-- ===== src/Services/Interleaved.antt =====
-- src/services/disputeService.js: calls of `changeStatus` and `addEvidence` that run at the same time,
-- each in a transaction of its own (READ COMMITTED), one step of one worker at a time.
--
-- `changeStatus` reads its row FOR UPDATE, so no other transaction writes the row until it ends;
-- `addEvidence` reads its dispute without a lock. What a transaction writes is seen by the others when
-- it commits: the writes of a worker are one step. That a writer waits for a lock is documented
-- behaviour of the database, and stands as hypotheses of the steps.
pub mod Laws
pub mod Ends
use chargeback_iq.Prelude.{
  ℕ, String, Option, some, Bool, false, ◌≡◌, ◌≢◌, find, nat_eq, if◌then◌else◌,
}
use chargeback_iq.Schema.{Db, Env, Dispute}
use chargeback_iq.Tx.{with_transaction}
use chargeback_iq.Tx.Keeps.{state_of}
use chargeback_iq.Repositories.Disputes.{
  NewEvidence, DisputeDetails, find_dispute_by_id, lock_dispute_for_update, has_id,
}
use chargeback_iq.Services.DisputeService.{ChangeInput, change_locked}
use chargeback_iq.Services.Evidence.{write_evidence}
use chargeback_iq.Services.Calls.{Step}

-- What a worker was asked to do.
pub data Job : Type 0 where
  changing : ChangeInput → Job
  filing : NewEvidence → Job

-- Where a worker stands, with the local variables that are live there.
pub data Pc : Type 0 where
  idle : Pc  -- before BEGIN
  locked : (current : Dispute) → Pc  -- after lockDisputeForUpdate in `changeStatus`
  checked : Pc  -- after the two guards of `addEvidence`
  ended : Pc  -- after COMMIT or ROLLBACK

pub record System : Type 0 where
  pub db : Db
  pub pc : ℕ → Pc

abbrev pub update : (ℕ → Pc) → ℕ → Pc → ℕ → Pc
update f i p j = if nat_eq i j then p else f j

-- No worker holds the lock of the row.
abbrev pub IsFree : System → (id : String) → Type 0
IsFree s id = (j : ℕ) (c : Dispute) → s.pc j ≡ locked c → c.id ≢ id

-- The rows that are locked are as they were.
abbrev pub LocksHold : System → Db → Type 0
LocksHold s after =
    (j : ℕ) (c : Dispute)
    → s.pc j ≡ locked c
    → find (has_id c.id) after.disputes ≡ find (has_id c.id) s.db.disputes

-- One step: of a worker, or another call of the service layer as a whole.
pub data Move (env : Env) (jobs : ℕ → Job) (s : System) : System → Type 0 where
  lock :
      (i : ℕ) (input : ChangeInput) (current : Dispute)
      → jobs i ≡ changing input
      → s.pc i ≡ idle
      → IsFree s input.dispute_id
      → lock_dispute_for_update input.dispute_id s.db ≡ some current
      → Move env jobs s (record { db = s.db; pc = update s.pc i (locked current) })
  commit :
      (i : ℕ) (input : ChangeInput) (current : Dispute)
      → jobs i ≡ changing input
      → s.pc i ≡ locked current
      → Move env jobs s (record {
        db = state_of (with_transaction (change_locked env input current) s.db);
        pc = update s.pc i ended;
      })
  check :
      (i : ℕ) (input : NewEvidence) (details : DisputeDetails)
      → jobs i ≡ filing input
      → s.pc i ≡ idle
      → find_dispute_by_id input.dispute_id s.db ≡ some details
      → details.is_terminal ≡ false
      → Move env jobs s (record { db = s.db; pc = update s.pc i checked })
  file :
      (i : ℕ) (input : NewEvidence)
      → jobs i ≡ filing input
      → s.pc i ≡ checked
      → Move env jobs s (record {
        db = state_of (with_transaction (write_evidence env input) s.db);
        pc = update s.pc i ended;
      })
  call :
      {after : Db} → Step s.db after → LocksHold s after → Move env jobs s (record s { db = after })

-- No call has begun.
abbrev pub begin : Db → System
begin db = record { db = db; pc = λ i. idle }

-- The systems that an interleaving leads to.
pub data Reachable (env : Env) (jobs : ℕ → Job) (db : Db) : System → Type 0 where
  start : Reachable env jobs db (begin db)
  later : {s t : System} → Reachable env jobs db s → Move env jobs s t → Reachable env jobs db t
