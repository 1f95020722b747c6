-- ===== src/Seeds/Runs.antt =====
-- Where a case can go by the moves that `assertTransition` accepts over the seeded table.
use chargeback_iq.Prelude.{
  ℕ, suc, ◌+◌, ◌≤◌, String, Bool, true, false, not, ◌&&◌, ◌||◌, ◌≡◌, ◌≢◌, refl, sym, ap, subst, ◌∙◌,
  arith, ◌==◌, dec_text, all, all-In, In, if◌then◌else◌, ltb,
}
use chargeback_iq.Errors.{ok}
use chargeback_iq.Lifecycle.{Transition, Move, assert_transition}
use chargeback_iq.Lifecycle.Laws.{assert_transition-eq-ok, find_transition-eq-some, IsRowOf}
use chargeback_iq.Seeds.{seeded_transitions}

-- A case that starts in a status and takes moves that are accepted with `evidence` items on file.
pub data CaseRun (evidence : ℕ) (start : String) : String → Type 0 where
  here : CaseRun evidence start start
  move :
      {s u : String} (m : Move) (t : Transition)
      → CaseRun evidence start s
      → assert_transition seeded_transitions m evidence ≡ ok t
      → m.from ≡ s
      → m.to ≡ u
      → CaseRun evidence start u

abbrev pub moves : {n : ℕ} {start s : String} → CaseRun n start s → ℕ
moves here = 0
moves (move m t r h p q) = suc (moves r)

-- The row behind an accepted move.
accepted_row :
    (n : ℕ) (m : Move) (t : Transition)
    → assert_transition seeded_transitions m n ≡ ok t
    → In t seeded_transitions × IsRowOf m t × (t.requires_evidence ≡ true → 1 ≤ n)
accepted_row n m t h =
    let (found, evidence) = assert_transition-eq-ok seeded_transitions m n t h in
    let (listed, states) = find_transition-eq-some seeded_transitions m t found in
    (listed, states, evidence)

-- The rows that are usable lead from the set into the set.
abbrev stays : (Transition → Bool) → (String → Bool) → Transition → Bool
stays usable inside t = not (usable t && inside t.from_status) || inside t.to_status

run_inside :
    (usable : Transition → Bool) (inside : String → Bool) (n : ℕ)
    → all (stays usable inside) seeded_transitions ≡ true
    → ((t : Transition) → (t.requires_evidence ≡ true → 1 ≤ n) → usable t ≡ true)
    → {start s : String} → CaseRun n start s
    → inside start ≡ true
    → inside s ≡ true
run_inside usable inside n closed use_of here h = h
run_inside usable inside n closed use_of (move m t r e p q) h =
    let (listed, states, evidence) = accepted_row n m t e in
    let before : inside t.from_status ≡ true =
      subst (λ x. inside x ≡ true) (sym (states.from ∙ p))
        (run_inside usable inside n closed use_of r h) in
    let after : inside t.to_status ≡ true =
      ground (
        arith,
        all-In (stays usable inside) seeded_transitions closed t listed,
        use_of t evidence,
      ) in
    subst (λ x. inside x ≡ true) (states.to ∙ q) after

-- The statuses that a received chargeback reaches without evidence.
undefended : String → Bool
undefended s =
    s == "CHARGEBACK_RECEIVED" || (s == "UNDER_REVIEW" || (s == "ACCEPTED" || s == "EXPIRED"))

undefended_closed : all (stays (λ t. not t.requires_evidence) undefended) seeded_transitions ≡ true
unfolding undefended dec_text
undefended_closed = refl

won_is_defended : undefended "WON" ≡ false
unfolding undefended dec_text
won_is_defended = refl

-- The statuses that a received chargeback reaches at all.
receivable : String → Bool
receivable s = not (s == "WITHDRAWN" || (s == "INQUIRY" || s == "PRE_DISPUTE_ALERT"))

receivable_closed : all (stays (λ t. true) receivable) seeded_transitions ≡ true
unfolding receivable dec_text
receivable_closed = refl

-- A chargeback that is received and for which no evidence is ever filed is never won.
pub run_without_evidence : {s : String} → CaseRun 0 "CHARGEBACK_RECEIVED" s → s ≢ "WON"
unfolding dec_text undefended
run_without_evidence r e =
    let h =
      run_inside (λ t. not t.requires_evidence) undefended 0 undefended_closed (λ t k. ground arith)
        r refl in
    cc (sym h ∙ ap undefended e ∙ won_is_defended)

withdrawn_is_not_receivable : receivable "WITHDRAWN" ≡ false
unfolding receivable dec_text
withdrawn_is_not_receivable = refl

-- A dispute that is opened as a received chargeback is never WITHDRAWN, whatever evidence is on file:
-- the seeded table leads to WITHDRAWN only from the statuses before a chargeback.
pub run_never_withdrawn : (n : ℕ) {s : String} → CaseRun n "CHARGEBACK_RECEIVED" s → s ≢ "WITHDRAWN"
unfolding dec_text receivable
run_never_withdrawn n r e =
    let h = run_inside (λ t. true) receivable n receivable_closed (λ t k. refl) r refl in
    cc (sym h ∙ ap receivable e ∙ withdrawn_is_not_receivable)

-- How far along a case is.
rank : String → ℕ
rank s =
    if s == "PRE_DISPUTE_ALERT" || s == "INQUIRY"
    then 0
    else if s == "CHARGEBACK_RECEIVED"
    then 1
    else if s == "UNDER_REVIEW"
    then 2
    else if s == "REPRESENTED"
    then 3
    else if s == "PRE_ARBITRATION"
    then 4
    else if s == "ARBITRATION"
    then 5
    else 6

abbrev rises : Transition → Bool
rises t = ltb (rank t.from_status) (rank t.to_status)

rank_rises : all rises seeded_transitions ≡ true
unfolding rank dec_text
rank_rises = refl

rank_bounded : (s : String) → rank s ≤ 6
unfolding rank
rank_bounded s = ground arith

run_rank : {n : ℕ} {start s : String} (r : CaseRun n start s) → moves r + rank start ≤ rank s
run_rank here = ground arith
run_rank {n} {start} (move m t r h p q) =
    let (listed, states, evidence) = accepted_row n m t h in
    let before : rank m.from ≡ rank t.from_status = ap rank (sym states.from) in
    let after : rank t.to_status ≡ rank m.to = ap rank states.to in
    ground (
      arith,
      run_rank r,
      all-In rises seeded_transitions rank_rises t listed,
      before,
      after,
      ap rank p,
      ap rank q,
    )

-- No case makes more than six moves: the seeded table has no cycle.
pub run_is_short : {n : ℕ} {start s : String} (r : CaseRun n start s) → moves r ≤ 6
run_is_short {n} {start} {s} r = ground (arith, run_rank r, rank_bounded s)
