-- ===== src/Audit/Interleaved.antt =====
-- The audit trail along interleaved calls.
use chargeback_iq.Prelude.{ℕ, some, ◌≡◌, sym, subst, find}
use chargeback_iq.Schema.{Db, Env}
use chargeback_iq.Tx.{with_transaction}
use chargeback_iq.Tx.Keeps.{Keeps, Keeps-with_transaction, state_of}
use chargeback_iq.Repositories.Disputes.{NewEvidence, has_id}
use chargeback_iq.Services.Evidence.{write_evidence}
use chargeback_iq.Services.Evidence.Laws.{write_evidence-eq-returned}
use chargeback_iq.Services.Calls.Keeps.{Step_keeps, Keeps-change_status}
use chargeback_iq.Services.Interleaved.{
  Job, System, Move, lock, commit, check, file, call, Reachable, start, later,
}
use chargeback_iq.Services.Interleaved.Laws.{HoldsLocks, Reachable-HoldsLocks, commit_is_call}
use chargeback_iq.Audit.Runs.{IsInOrder, IsInOrder-IsPreserved, after_evidence-IsInOrder}

Keeps-write_evidence :
    (env : Env) (input : NewEvidence)
    → Keeps IsInOrder (with_transaction (write_evidence env input))
Keeps-write_evidence env input =
    Keeps-with_transaction IsInOrder (write_evidence env input) IsInOrder-IsPreserved.same
      (λ db item after p e.
        subst IsInOrder (sym (write_evidence-eq-returned env input db item after e).1)
          (after_evidence-IsInOrder env input db item p))

Move-IsInOrder :
    (env : Env) (jobs : ℕ → Job) {s t : System}
    → HoldsLocks jobs s
    → Move env jobs s t
    → IsInOrder s.db
    → IsInOrder t.db
Move-IsInOrder env jobs h (lock i input current e q free found) p = p
Move-IsInOrder env jobs {s} h (commit i input current e q) p =
    let found =
      subst (λ id. find (has_id id) s.db.disputes ≡ some current) (h.job i current input q e)
        (h.row i current q) in
    subst (λ o. IsInOrder (state_of o)) (sym (commit_is_call env input current s.db found))
      ((Keeps-change_status IsInOrder IsInOrder-IsPreserved env input).at s.db p)
Move-IsInOrder env jobs h (check i input details e q found is_open) p = p
Move-IsInOrder env jobs {s} h (file i input e q) p = (Keeps-write_evidence env input).at s.db p
Move-IsInOrder env jobs h (call step holds) p = Step_keeps IsInOrder IsInOrder-IsPreserved step p

-- From a state in order every interleaving of calls leads to states in order.
pub Reachable-IsInOrder :
    (env : Env) (jobs : ℕ → Job) {db : Db} {s : System}
    → Reachable env jobs db s
    → IsInOrder db
    → IsInOrder s.db
Reachable-IsInOrder env jobs start p = p
Reachable-IsInOrder env jobs (later r m) p =
    Move-IsInOrder env jobs (Reachable-HoldsLocks env jobs r) m (Reachable-IsInOrder env jobs r p)
