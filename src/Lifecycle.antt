-- ===== src/Lifecycle.antt =====
-- src/domain/lifecycle.js: the dispute state machine, over the rows of `status_transitions`.
pub mod Laws
use chargeback_iq.Prelude.{
  ℕ, String, Option, none, some, Bool, true, false, not, ◌&&◌, List, [], ◌∷◌, map, if◌then◌else◌,
  ◌==◌, ltb, all, keep, is_some,
}
use chargeback_iq.Errors.{Result, ok, err, app, invalid_transition_error, evidence_required_error}

-- A row of `status_transitions`.
pub record Transition : Type 0 where
  pub from_status : String
  pub to_status : String
  pub triggered_by : String
  pub requires_evidence : Bool
  pub description : String

-- The requested move.
pub record Move : Type 0 where
  pub from : String
  pub to : String
  pub triggered_by : String

-- The test in the loop of `findTransition`.
abbrev pub is_row_of : Move → Transition → Bool
is_row_of m t = t.from_status == m.from && (t.to_status == m.to && t.triggered_by == m.triggered_by)

unfoldable pub find_transition : List Transition → Move → Option Transition
find_transition [] m = none
find_transition (t ∷ ts) m = if is_row_of m t then some t else find_transition ts m

unfoldable pub can_transition : List Transition → Move → Bool
can_transition ts m = is_some (find_transition ts m)

-- What `nextStatuses` lists of a row.
pub record NextStatus : Type 0 where
  pub status : String
  pub triggered_by : String
  pub requires_evidence : Bool

abbrev pub to_next_status : Transition → NextStatus
to_next_status t = record {
  status = t.to_status;
  triggered_by = t.triggered_by;
  requires_evidence = t.requires_evidence;
}

unfoldable pub next_statuses : List Transition → String → List NextStatus
next_statuses ts from = map to_next_status (keep (λ t. t.from_status == from) ts)

unfoldable pub is_terminal : List Transition → String → Bool
is_terminal ts status = all (λ t. not (t.from_status == status)) ts

-- `transition.requires_evidence && evidenceCount < 1`
unfoldable pub check_evidence : Move → ℕ → Transition → Result Transition
check_evidence m evidence_count t =
    if t.requires_evidence && ltb evidence_count 1
    then err (app (evidence_required_error m.from m.to))
    else ok t

unfoldable pub assert_transition : List Transition → Move → ℕ → Result Transition
unfolding check_evidence
assert_transition ts m evidence_count = elim (find_transition ts m) [
  | none ↦ err (app (invalid_transition_error m.from m.to m.triggered_by))
  | some t ↦ check_evidence m evidence_count t
]
