-- ===== src/Lifecycle/Laws.antt =====
-- What the lookup and the check of a move decide.
use chargeback_iq.Prelude.{
  ℕ, ◌≤◌, String, none, some, Bool, true, false, List, [], ◌∷◌, ◌≡◌, refl, ◌↔◌, inl, inr, arith,
  Option-cases, Bool-cases, In, find, find-eq-some, find-eq-none, find-eq-none_of, all-In,
  all_of_In, In-keep, In-of_In-keep, In-map, of_In-map, keep, ◌==◌, ==_iff, not,
}
use chargeback_iq.Errors.{Result, ok, err, app, invalid_transition_error, evidence_required_error}
use chargeback_iq.Lifecycle.{
  Transition, Move, NextStatus, is_row_of, to_next_status, find_transition, next_statuses,
  is_terminal, assert_transition, check_evidence, can_transition,
}

-- The row states the move: the same statuses and the same trigger.
pub record IsRowOf (m : Move) (t : Transition) : Type 0 where
  pub from : t.from_status ≡ m.from
  pub to : t.to_status ≡ m.to
  pub by : t.triggered_by ≡ m.triggered_by

pub is_row_of-IsRowOf : (m : Move) (t : Transition) → is_row_of m t ≡ true → IsRowOf m t
is_row_of-IsRowOf m t h = ground arith

pub IsRowOf-is_row_of : (m : Move) (t : Transition) → IsRowOf m t → is_row_of m t ≡ true
IsRowOf-is_row_of m t r = ground arith

pub find_transition-eq-find :
    (ts : List Transition) (m : Move) → find_transition ts m ≡ find (is_row_of m) ts
unfolding find_transition
find_transition-eq-find [] m = refl
find_transition-eq-find (t ∷ ts) m = ground (arith, find_transition-eq-find ts m)

-- A found row is in the table and states the move.
pub find_transition-eq-some :
    (ts : List Transition) (m : Move) (t : Transition)
    → find_transition ts m ≡ some t
    → In t ts × IsRowOf m t
find_transition-eq-some ts m t h =
    let (i, e) = find-eq-some (is_row_of m) ts t (rw find_transition-eq-find at h) in
    (i, is_row_of-IsRowOf m t e)

-- Nothing is found exactly when no row states the move.
pub find_transition-eq-none :
    (ts : List Transition) (m : Move)
    → (find_transition ts m ≡ none) ↔ ((t : Transition) → In t ts → ¬ IsRowOf m t)
find_transition-eq-none ts m = (
  (λ h t i r. none_states t i r (rw find_transition-eq-find at h)),
  (λ h. rw find_transition-eq-find (find-eq-none_of (is_row_of m) ts (λ t i. states_none h t i))),
)
  where
    none_states : (t : Transition) → In t ts → IsRowOf m t → find (is_row_of m) ts ≡ none → ⊥
    none_states t i r e = cc (find-eq-none (is_row_of m) ts e t i, IsRowOf-is_row_of m t r)

    states_none :
        ((t : Transition) → In t ts → ¬ IsRowOf m t)
        → (t : Transition) → In t ts
        → is_row_of m t ≡ false
    states_none h t i = elim (Bool-cases (is_row_of m t)) [
      | inl e ↦ absurd (h t i (is_row_of-IsRowOf m t e))
      | inr e ↦ e
    ]

-- The primary key of `status_transitions`: two rows that state one move are one row.
abbrev pub HasUniqueMoves : List Transition → Type 0
HasUniqueMoves ts =
    (m : Move) (t u : Transition) → In t ts → In u ts → IsRowOf m t → IsRowOf m u → t ≡ u

-- The table allows the move: a row states it, and if the row asks for evidence there is some.
pub record IsAllowed (ts : List Transition) (m : Move) (evidence_count : ℕ) : Type 0 where
  pub row : Transition
  pub listed : In row ts
  pub states : IsRowOf m row
  pub evidence : row.requires_evidence ≡ true → 1 ≤ evidence_count

-- The table knows the move, and the evidence that it asks for is missing.
pub record LacksEvidence (ts : List Transition) (m : Move) (evidence_count : ℕ) : Type 0 where
  pub row : Transition
  pub listed : In row ts
  pub states : IsRowOf m row
  pub required : row.requires_evidence ≡ true
  pub missing : evidence_count ≡ 0

-- The three ends of `assertTransition`.
abbrev pub Decides : List Transition → Move → ℕ → Result Transition → Type 0
Decides ts m n r =
    (((t : Transition) × (r ≡ ok t)) ↔ IsAllowed ts m n)
    × ((r ≡ err (app (invalid_transition_error m.from m.to m.triggered_by)))
        ↔ ((t : Transition) → In t ts → ¬ IsRowOf m t))
    × ((r ≡ err (app (evidence_required_error m.from m.to))) ↔ LacksEvidence ts m n)

module _ (ts : List Transition) (m : Move) (n : ℕ) where
  -- With no row for the move.
  Decides-unknown : find_transition ts m ≡ none → Decides ts m n (assert_transition ts m n)
  unfolding assert_transition
  Decides-unknown e = (
    ((λ a. cc), λ a. absurd (unknown a.row a.listed a.states)),
    ((λ h. unknown), λ h. ground arith),
    ((λ h. cc), λ a. absurd (unknown a.row a.listed a.states)),
  )
    where
      unknown : (t : Transition) → In t ts → ¬ IsRowOf m t
      unknown = (find_transition-eq-none ts m).0 e

  Decides-known :
      HasUniqueMoves ts
      → (t : Transition) → find_transition ts m ≡ some t
      → Decides ts m n (assert_transition ts m n)
  unfolding assert_transition check_evidence
  Decides-known unique t e = (
    (
      (λ a. record { row = t; listed = found.0; states = found.1; evidence = ground arith }),
      λ a. (t, ground (arith, same a.row a.listed a.states)),
    ),
    ((λ h. ground arith), λ h. absurd (h t found.0 found.1)),
    (
      (λ h. record {
        row = t;
        listed = found.0;
        states = found.1;
        required = ground arith;
        missing = ground arith;
      }),
      λ a. ground (arith, same a.row a.listed a.states),
    ),
  )
    where
      found : In t ts × IsRowOf m t
      found = find_transition-eq-some ts m t e

      same : (u : Transition) → In u ts → IsRowOf m u → t ≡ u
      same u i r = unique m t u found.0 i found.1 r

-- Over a table with its primary key, `assertTransition` returns a row exactly when the table allows
-- the move; it throws InvalidTransitionError exactly when no row states the move, and
-- EvidenceRequiredError exactly when the row of the move asks for evidence and there is none.
pub assert_transition-Decides :
    (ts : List Transition) (m : Move) (n : ℕ)
    → HasUniqueMoves ts
    → Decides ts m n (assert_transition ts m n)
assert_transition-Decides ts m n unique = elim (Option-cases (find_transition ts m)) [
  | inl e ↦ Decides-unknown ts m n e
  | inr (t, e) ↦ Decides-known ts m n unique t e
]

-- A returned row is the one that the lookup found, and the evidence that it asks for is there.
pub assert_transition-eq-ok :
    (ts : List Transition) (m : Move) (n : ℕ) (t : Transition)
    → assert_transition ts m n ≡ ok t
    → (find_transition ts m ≡ some t) × (t.requires_evidence ≡ true → 1 ≤ n)
unfolding assert_transition check_evidence
assert_transition-eq-ok ts m n t h = ground arith

-- The row that a lookup found, where its evidence is there, is accepted.
pub assert_transition_of_found :
    (ts : List Transition) (m : Move) (t : Transition) (n : ℕ)
    → find_transition ts m ≡ some t
    → (t.requires_evidence ≡ true → 1 ≤ n)
    → assert_transition ts m n ≡ ok t
unfolding assert_transition check_evidence
assert_transition_of_found ts m t n h e = ground arith

-- A move that no row states is refused.
pub assert_transition_of_none :
    (ts : List Transition) (m : Move) (n : ℕ)
    → find_transition ts m ≡ none
    → assert_transition ts m n ≡ err (app (invalid_transition_error m.from m.to m.triggered_by))
unfolding assert_transition
assert_transition_of_none ts m n h = ground arith

-- The move of a row.
abbrev move_of : Transition → Move
move_of t = record { from = t.from_status; to = t.to_status; triggered_by = t.triggered_by }

-- A status is terminal exactly when no move from it is permitted, for any target and trigger.
pub is_terminal_iff :
    (ts : List Transition) (status : String)
    → (is_terminal ts status ≡ true) ↔ ((m : Move) → m.from ≡ status → can_transition ts m ≡ false)
unfolding is_terminal can_transition
is_terminal_iff ts status = (to, λ h. all_of_In _ ts (stays h))
  where
    to : is_terminal ts status ≡ true → (m : Move) → m.from ≡ status → can_transition ts m ≡ false
    to h m e = elim (Option-cases (find_transition ts m)) [
      | inl missing ↦ rw missing
      | inr (t, found) ↦
          let (i, r) = find_transition-eq-some ts m t found in
          ground (arith, all-In (λ t. not (t.from_status == status)) ts h t i)
    ]

    stays :
        ((m : Move) → m.from ≡ status → can_transition ts m ≡ false)
        → (t : Transition) → In t ts
        → not (t.from_status == status) ≡ true
    stays h t i = elim (Option-cases (find_transition ts (move_of t))) [
      | inl missing ↦ absurd (
          (find_transition-eq-none ts (move_of t)).0 missing t i
            (record { from = refl; to = refl; by = refl }))
      | inr (u, found) ↦ ground (arith, h (move_of t))
    ]

-- The listed next statuses are exactly the rows that leave the status.
pub next_statuses_iff :
    (ts : List Transition) (from : String) (s : NextStatus)
    → In s (next_statuses ts from)
      ↔ ((t : Transition) × In t ts × (t.from_status ≡ from) × (s ≡ to_next_status t))
unfolding next_statuses
next_statuses_iff ts from s = (to, back)
  where
    leaves : Transition → Bool
    leaves t = t.from_status == from

    to :
        In s (next_statuses ts from)
        → (t : Transition) × In t ts × (t.from_status ≡ from) × (s ≡ to_next_status t)
    to m =
        let (t, i, e) = of_In-map to_next_status (keep leaves ts) s m in
        let (j, same) = In-of_In-keep leaves ts t i in (t, j, (==_iff _ _).0 same, e)

    back :
        ((t : Transition) × In t ts × (t.from_status ≡ from) × (s ≡ to_next_status t))
        → In s (next_statuses ts from)
    back (t, i, same, e) =
        rw e
          (In-map to_next_status (keep leaves ts) t (In-keep leaves ts t i ((==_iff _ _).1 same)))
