-- ===== src/Tests/Rules.antt =====
-- The table of moves and the table of deadlines.
use chargeback_iq.Prelude.{
  ◌≤◌, ◌<◌, String, none, some, true, false, List, [], ◌∷◌, ◌≡◌, ◌≢◌, ◌↔◌, inl, inr, refl, dec_text,
  arith, In, ==_iff,
}
use chargeback_iq.Prelude.Int.{pos, floor_div}
use chargeback_iq.Errors.{err, ok, app, evidence_required_error}
use chargeback_iq.Lifecycle.{
  Transition, Move, to_next_status, find_transition, assert_transition, check_evidence,
  can_transition, next_statuses, is_terminal,
}
use chargeback_iq.Lifecycle.Laws.{
  HasUniqueMoves, LacksEvidence, assert_transition-Decides, is_terminal_iff, next_statuses_iff,
}
use chargeback_iq.Deadlines.{
  DeadlineRule, Query, select_deadline_rule, date, whole, at, max_time, compute_respond_by,
  respond_within, days_remaining, deadline_state, expired, warning,
}
use chargeback_iq.Deadlines.Selection.{
  HasUniqueKeys, IsCandidate, select_deadline_rule_order, select_tie,
}
use chargeback_iq.Deadlines.Clock.{
  IsWindow, deadline_state_lem, days_remaining_lem, compute_respond_by_iff, compute_respond_by_days,
}
use chargeback_iq.Seeds.{seeded_transitions}
use chargeback_iq.Seeds.Runs.{
  CaseRun, here, move, moves, run_without_evidence, run_never_withdrawn, run_is_short,
}

abbrev fight : Transition
fight = record {
  from_status = "UNDER_REVIEW";
  to_status = "REPRESENTED";
  triggered_by = "OPERATOR";
  requires_evidence = true;
  description = "";
}

abbrev concede : Transition
concede = record fight { to_status = "ACCEPTED"; requires_evidence = false }

abbrev two_moves : List Transition
two_moves = fight ∷ concede ∷ []

abbrev contest : Move
contest = record { from = "UNDER_REVIEW"; to = "REPRESENTED"; triggered_by = "OPERATOR" }

other_texts : ◌≡◌ {A = String} "REPRESENTED" "ACCEPTED" → ⊥
unfolding dec_text
other_texts e = cc ((==_iff "REPRESENTED" "ACCEPTED").1 e)

two_moves-HasUniqueMoves : HasUniqueMoves two_moves
two_moves-HasUniqueMoves m t u i j a b = ground (arith, i, j, a, b, other_texts)

refused_contest :
    assert_transition two_moves contest 0
    ≡ err (app (evidence_required_error "UNDER_REVIEW" "REPRESENTED"))
unfolding assert_transition find_transition check_evidence dec_text
refused_contest = refl

assert_transition-Decides_example : LacksEvidence two_moves contest 0
assert_transition-Decides_example =
    (assert_transition-Decides two_moves contest 0 two_moves-HasUniqueMoves).2.0 refused_contest

is_terminal_iff_test : can_transition seeded_transitions (record contest { from = "WON" }) ≡ false
unfolding is_terminal dec_text
is_terminal_iff_test =
    (is_terminal_iff seeded_transitions "WON").0 refl (record contest { from = "WON" }) refl

next_statuses_iff_test :
    (t : Transition) × In t two_moves
    × (t.from_status ≡ "UNDER_REVIEW")
    × (to_next_status concede ≡ to_next_status t)
unfolding next_statuses dec_text
next_statuses_iff_test =
    (next_statuses_iff two_moves "UNDER_REVIEW" (to_next_status concede)).0 (inr (inl refl))

-- A case that is conceded.
abbrev up : Transition
up = record {
  from_status = "CHARGEBACK_RECEIVED";
  to_status = "UNDER_REVIEW";
  triggered_by = "OPERATOR";
  requires_evidence = false;
  description = "An operator picked the case up for assessment.";
}

picked_up : CaseRun 0 "CHARGEBACK_RECEIVED" "UNDER_REVIEW"
unfolding assert_transition find_transition check_evidence dec_text
picked_up =
    move (record { from = "CHARGEBACK_RECEIVED"; to = "UNDER_REVIEW"; triggered_by = "OPERATOR" })
      up here refl refl refl

run_without_evidence_test : ◌≢◌ {A = String} "UNDER_REVIEW" "WON"
run_without_evidence_test = run_without_evidence picked_up

run_never_withdrawn_test : ◌≢◌ {A = String} "UNDER_REVIEW" "WITHDRAWN"
run_never_withdrawn_test = run_never_withdrawn 0 picked_up

run_is_short_test : moves picked_up ≤ 6
run_is_short_test = run_is_short picked_up

abbrev query : Query
query = record {
  network_code = "VISA";
  stage = "CHARGEBACK_RECEIVED";
  region = "US";
  processor_code = some "ADYEN";
}

abbrev anywhere : DeadlineRule
anywhere = record {
  network_code = "VISA";
  stage = "CHARGEBACK_RECEIVED";
  region = "DEFAULT";
  processor_code = none;
  response_days = 30;
  warn_days_before = 5;
}

abbrev in_us : DeadlineRule
in_us = record anywhere { region = "US"; response_days = 9 }

abbrev rules : List DeadlineRule
rules = anywhere ∷ in_us ∷ []

abbrev rows : List DeadlineRule
rows = in_us ∷ anywhere ∷ []

us_ne_default : ◌≡◌ {A = String} "US" "DEFAULT" → ⊥
unfolding dec_text
us_ne_default e = cc ((==_iff "US" "DEFAULT").1 e)

rules-HasUniqueKeys : HasUniqueKeys rules
rules-HasUniqueKeys r t i j same = ground (arith, i, j, same, us_ne_default)

same_rows : (r : DeadlineRule) → In r rules ↔ In r rows
same_rows r = ground arith

select_deadline_rule_order_test : select_deadline_rule rules query ≡ select_deadline_rule rows query
select_deadline_rule_order_test =
    select_deadline_rule_order rules rows query rules-HasUniqueKeys same_rows

abbrev longer : DeadlineRule
longer = record in_us { response_days = 20 }

us-IsCandidate : IsCandidate query in_us
us-IsCandidate = record { network = refl; stage = refl; region = inl refl; processor = inr refl }

-- Two rows for VISA in the US, with no processor: 9 days, or 20.
select_tie_example :
    (select_deadline_rule (in_us ∷ longer ∷ []) query ≡ some in_us)
    × (select_deadline_rule (longer ∷ in_us ∷ []) query ≡ some longer)
select_tie_example = select_tie in_us longer query us-IsCandidate (refl, refl, refl, refl)

nine_days : compute_respond_by (date 5_000) (whole (pos 9)) ≡ ok (at 777_605_000)
unfolding compute_respond_by respond_within
nine_days = refl

compute_respond_by_iff_test : IsWindow (date 5_000) (whole (pos 9)) (at 777_605_000)
compute_respond_by_iff_test =
    (compute_respond_by_iff (date 5_000) (whole (pos 9)) (at 777_605_000)).0 nine_days

compute_respond_by_days_test :
    (5_000 < 777_605_000) × (777_605_000 ≤ max_time) × (days_remaining 5_000 777_605_000 ≡ pos 9)
compute_respond_by_days_test = compute_respond_by_days 5_000 9 777_605_000 nine_days

deadline_state_lem_test : deadline_state 777_604_999 777_605_000 3 ≡ warning
deadline_state_lem_test = (deadline_state_lem 777_604_999 777_605_000 3).1.1 (ground arith)

days_remaining_lem_test : deadline_state 777_605_001 777_605_000 3 ≡ expired
unfolding days_remaining floor_div
days_remaining_lem_test = (days_remaining_lem 777_605_001 777_605_000 3).1 (ground arith)
