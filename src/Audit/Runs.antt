-- ===== src/Audit/Runs.antt =====
-- The audit trail along every run of the service layer.
use chargeback_iq.Prelude.{String, List, ◌≡◌, sym, subst, arith, ==_iff, dec_text}
use chargeback_iq.Schema.{Db, Env, Evidence, Delivery}
use chargeback_iq.Repositories.Disputes.{NewEvidence}
use chargeback_iq.Services.Evidence.Laws.{after_evidence}
use chargeback_iq.Tx.Laws.{SameTables}
use chargeback_iq.Services.Calls.{Reach}
use chargeback_iq.Services.Calls.Keeps.{IsPreserved, Reach_keeps}
use chargeback_iq.Audit.{IsSound, IsAudited}
use chargeback_iq.Audit.Moves.{after_change-IsAudited}
use chargeback_iq.Audit.Opening.{after_opening-IsAudited}

-- The reference data agree, and the audit trail is in order.
pub record IsInOrder (db : Db) : Type 0 where
  pub sound : IsSound db
  pub audited : IsAudited db

-- A state that differs from one in order only outside the cases and the reference data.
IsInOrder-of_same : (db db' : Db) → SameTables db db' → IsInOrder db → IsInOrder db'
IsInOrder-of_same db db' (n, s, same) o = subst IsInOrder (sym same) (record {
  sound = record { no_exit = o.sound.no_exit; opens = o.sound.opens };
  audited = record {
    trailed = o.audited.trailed;
    legal = o.audited.legal;
    closed = o.audited.closed;
  };
})

-- The deliveries are no part of the audit trail.
other_deliveries :
    (db : Db) (ds : List Delivery) → IsInOrder db → IsInOrder (record db { deliveries = ds })
other_deliveries db ds o = record {
  sound = record { no_exit = o.sound.no_exit; opens = o.sound.opens };
  audited = record {
    trailed = o.audited.trailed;
    legal = o.audited.legal;
    closed = o.audited.closed;
  };
}

evidence_ne_change : ◌≡◌ {A = String} "EVIDENCE_ADDED" "STATUS_CHANGED" → ⊥
unfolding dec_text
evidence_ne_change h = cc ((==_iff "EVIDENCE_ADDED" "STATUS_CHANGED").1 h)

-- Adding evidence writes an event with no target status.
pub after_evidence-IsInOrder :
    (env : Env) (input : NewEvidence) (db : Db) (item : Evidence)
    → IsInOrder db
    → IsInOrder (after_evidence env input db item)
after_evidence-IsInOrder env input db item p = record {
  sound = record { no_exit = p.sound.no_exit; opens = p.sound.opens };
  audited = record {
    trailed = λ d i. ground (arith, p.audited.trailed d i);
    legal = (λ e. absurd (evidence_ne_change e), p.audited.legal);
    closed = p.audited.closed;
  };
}

pub IsInOrder-IsPreserved : IsPreserved IsInOrder
IsInOrder-IsPreserved = record {
  same = IsInOrder-of_same;
  delivered = other_deliveries;
  opened = λ env input db o db' p c. record {
    sound = record { no_exit = p.sound.no_exit; opens = p.sound.opens };
    audited = after_opening-IsAudited env input db o db' c p.sound p.audited;
  };
  changed = λ env input db u db' p c. record {
    sound = record { no_exit = p.sound.no_exit; opens = p.sound.opens };
    audited =
        after_change-IsAudited env input db c.current c.found c.row c.allowed p.sound p.audited;
  };
  added = λ env input db item db' p c. after_evidence-IsInOrder env input db item p;
}

-- From a state in order every sequence of calls, those that throw included, leads to states in order:
-- the newest event of every dispute states its status, every recorded change is a row of the table
-- that leaves from the status before it, and exactly the disputes in a terminal status are closed.
pub Reach-IsInOrder : {s t : Db} → Reach s t → IsInOrder s → IsInOrder t
Reach-IsInOrder = Reach_keeps IsInOrder IsInOrder-IsPreserved
