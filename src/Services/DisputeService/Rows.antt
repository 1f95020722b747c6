-- ===== src/Services/DisputeService/Rows.antt =====
-- The rows of the disputes after a move.
use mathlib.Core.Option
use chargeback_iq.Prelude.{String, ◌≡◌, arith, find, any, if◌then◌else◌}
use chargeback_iq.Schema.{Db, Env, Dispute}
use chargeback_iq.Repositories.Disputes.{has_id, is_expected, with_status}
use chargeback_iq.Repositories.Disputes.Laws.{find-map, any-map}
use chargeback_iq.Services.DisputeService.{ChangeInput}
use chargeback_iq.Services.DisputeService.ChangeStatus.{closes_at, after_change}

-- What `changeStatus` does to a row.
abbrev pub moved_row : Env → ChangeInput → Db → Dispute → Dispute → Dispute
moved_row env input db current d =
    if is_expected input.dispute_id current.status_code d
    then with_status env input.to_status (closes_at env input db) d
    else d

pub moved_row-id :
    (env : Env) (input : ChangeInput) (db : Db) (current d : Dispute)
    → (moved_row env input db current d).id ≡ d.id
moved_row-id env input db current d = ground arith

module _ (env : Env) (input : ChangeInput) (db : Db) (current : Dispute) (id : String) where
  pub find-after_change :
      find (has_id id) (after_change env input db current).disputes
      ≡ Option.map (moved_row env input db current) (find (has_id id) db.disputes)
  find-after_change =
      find-map (moved_row env input db current) (moved_row-id env input db current) id db.disputes

  pub any-after_change :
      any (has_id id) (after_change env input db current).disputes ≡ any (has_id id) db.disputes
  any-after_change =
      any-map (moved_row env input db current) (moved_row-id env input db current) id db.disputes
