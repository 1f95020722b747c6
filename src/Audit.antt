-- ===== src/Audit.antt =====
-- The audit trail: what the event log says of the disputes, and that the operations keep it true.
pub mod Moves
pub mod Opening
pub mod Deadline
pub mod Runs
pub mod Interleaved
pub mod Cases
pub mod Book
use chargeback_iq.Prelude.{
  ℕ, String, Option, none, some, Bool, true, false, List, [], ◌∷◌, ◌≡◌, ◌≢◌, ◌↔◌, if◌then◌else◌,
  ◌==◌, In, All, find,
}
use chargeback_iq.Lifecycle.{Transition}
use chargeback_iq.Schema.{Db, Dispute, Event, Status}
use chargeback_iq.Repositories.Disputes.{has_code}

-- The status that the newest event of a dispute with a target status left it in. Events stand with the
-- newest first.
abbrev pub last_status : String → List Event → Option String
last_status id [] = none
last_status id (e ∷ es) =
    if e.dispute_id == id
    then elim e.to_status [ some s ↦ some s | none ↦ last_status id es ]
    else last_status id es

-- The log's last word on the dispute is its status.
abbrev pub IsTrailed : List Event → Dispute → Type 0
IsTrailed events d = last_status d.id events ≡ some d.status_code

-- A recorded change leaves from the status that the earlier events left the dispute in, and states a
-- row of the table.
pub record IsLegalChange (ts : List Transition) (earlier : List Event) (e : Event) : Type 0 where
  pub row : Transition
  pub listed : In row ts
  pub from : e.from_status ≡ some row.from_status
  pub to : e.to_status ≡ some row.to_status
  pub by : e.actor_type ≡ row.triggered_by
  pub continues : last_status e.dispute_id earlier ≡ e.from_status

-- Every recorded change of the log is legal.
abbrev pub IsLegal : List Transition → List Event → Type 0
IsLegal ts [] = Unit
IsLegal ts (e ∷ es) = (e.event_type ≡ "STATUS_CHANGED" → IsLegalChange ts es e) × IsLegal ts es

-- Whether the table of statuses calls a code terminal; a code that is not there is not.
abbrev pub ends : Option Status → Bool
ends none = false
ends (some s) = s.is_terminal

abbrev pub is_final : List Status → String → Bool
is_final statuses code = ends (find (has_code code) statuses)

-- A dispute is closed exactly when its status is terminal.
abbrev pub IsClosedRight : List Status → Dispute → Type 0
IsClosedRight statuses d = (d.closed_at ≡ none) ↔ (is_final statuses d.status_code ≡ false)

-- The reference data agree: no row leaves a terminal status, and disputes do not open in one.
pub record IsSound (db : Db) : Type 0 where
  pub no_exit : (t : Transition) → In t db.transitions → is_final db.statuses t.from_status ≡ false
  pub opens : is_final db.statuses "CHARGEBACK_RECEIVED" ≡ false

-- The invariant of the service layer.
pub record IsAudited (db : Db) : Type 0 where
  pub trailed : (d : Dispute) → In d db.disputes → IsTrailed db.events d
  pub legal : IsLegal db.transitions db.events
  pub closed : (d : Dispute) → In d db.disputes → IsClosedRight db.statuses d
