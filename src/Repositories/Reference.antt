-- ===== src/Repositories/Reference.antt =====
-- src/repositories/referenceRepository.js: reads of the reference tables. The rows of a table with an
-- ORDER BY stand in the table in that order.
use chargeback_iq.Prelude.{
  ℕ, String, Option, none, some, Bool, ◌&&◌, List, [], ◌∷◌, find, keep, ◌==◌, opt_eq, if◌then◌else◌,
}
use chargeback_iq.Lifecycle.{Transition}
use chargeback_iq.Deadlines.{DeadlineRule}
use chargeback_iq.Schema.{Db, Status, ReasonCode, Kind, Requirement}
use chargeback_iq.Repositories.Disputes.{is_kind}
use chargeback_iq.Repositories.Disputes.Queue.{order_by}

unfoldable pub list_status_transitions : Db → List Transition
list_status_transitions db = db.transitions

unfoldable pub list_deadline_rules : Db → List DeadlineRule
list_deadline_rules db = db.rules

unfoldable pub list_statuses : Db → List Status
list_statuses db = db.statuses

-- A code that is undefined reaches SQL as NULL, which equals nothing.
unfoldable pub find_reason_code :
    (network_code : String) (code : Option String) → Db → Option ReasonCode
find_reason_code network_code code db =
    find (λ rc. rc.network_code == network_code && opt_eq code rc.code) db.reason_codes

-- What `listEvidenceRequirements` reads of a row.
pub record ListedRequirement : Type 0 where
  pub evidence_kind_code : String
  pub requirement : String
  pub name : String
  pub description : String

-- `CASE er.requirement …`
abbrev pub rank : String → ℕ
rank requirement =
    if requirement == "REQUIRED" then 1 else if requirement == "RECOMMENDED" then 2 else 3

abbrev pub named : Requirement → Option Kind → List ListedRequirement → List ListedRequirement
named r none rows = rows
named r (some k) rows =
    record {
      evidence_kind_code = r.evidence_kind_code;
      requirement = r.requirement;
      name = k.name;
      description = k.description;
    }
    ∷ rows

abbrev pub join_kinds : List Kind → List Requirement → List ListedRequirement
join_kinds kinds [] = []
join_kinds kinds (r ∷ rs) =
    named r (find (is_kind r.evidence_kind_code) kinds) (join_kinds kinds rs)

abbrev pub is_for : (reason_code_id : String) → Requirement → Bool
is_for reason_code_id r = r.reason_code_id == reason_code_id

-- Rows of one rank stand in the table in the order of the kinds' names.
unfoldable pub list_evidence_requirements : (reason_code_id : String) → Db → List ListedRequirement
unfolding order_by
list_evidence_requirements reason_code_id db =
    join_kinds db.evidence_kinds
      (order_by (λ r. rank r.requirement) (keep (is_for reason_code_id) db.requirements))
