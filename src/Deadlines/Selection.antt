-- ===== src/Deadlines/Selection.antt =====
-- Which rule `selectDeadlineRule` chooses.
use chargeback_iq.Prelude.{
  ℕ, ◌≤◌, none, some, true, List, [], ◌∷◌, ◌≡◌, ◌↔◌, ◌⊎◌, inl, inr, arith, Option-cases, In, sym,
  ap, ◌∙◌,
}
use chargeback_iq.Deadlines.{
  DeadlineRule, Query, is_candidate, score, Best, consider, select_from, rule_of,
  select_deadline_rule,
}

-- The rule may apply: its network and stage are the wanted ones, its region is the wanted one or
-- DEFAULT, and its processor is the wanted one or left open.
pub record IsCandidate (q : Query) (r : DeadlineRule) : Type 0 where
  pub network : r.network_code ≡ q.network_code
  pub stage : r.stage ≡ q.stage
  pub region : (r.region ≡ q.region) ⊎ (r.region ≡ "DEFAULT")
  pub processor : (r.processor_code ≡ q.processor_code) ⊎ (r.processor_code ≡ none)

pub is_candidate_iff : (q : Query) (r : DeadlineRule) → (is_candidate q r ≡ true) ↔ IsCandidate q r
unfolding is_candidate
is_candidate_iff q r = (λ h. ground arith, λ h. ground arith)

-- The best so far scores `n` or more.
abbrev AtLeast : ℕ → Best → Type 0
AtLeast n none = ⊥
AtLeast n (some (r, s)) = n ≤ s

module _ (q : Query) where
  consider-AtLeast :
      (n : ℕ) (best : Best) (r : DeadlineRule) → AtLeast n best → AtLeast n (consider q best r)
  consider-AtLeast n (some (b, s)) r h = ground arith
  consider-AtLeast n none r h = elim h [ ]

  consider-AtLeast_self :
      (best : Best) (r : DeadlineRule)
      → is_candidate q r ≡ true
      → AtLeast (score q r) (consider q best r)
  consider-AtLeast_self none r h = rw h (ground arith)
  consider-AtLeast_self (some (b, s)) r h = ground arith

  select_from-AtLeast :
      (n : ℕ) (best : Best) (rs : List DeadlineRule)
      → AtLeast n best
      → AtLeast n (select_from q best rs)
  unfolding select_from
  select_from-AtLeast n best [] h = h
  select_from-AtLeast n best (r ∷ rs) h =
      select_from-AtLeast n (consider q best r) rs (consider-AtLeast n best r h)

  -- No candidate outscores the choice.
  select_from-best :
      (best : Best) (rs : List DeadlineRule) (c : DeadlineRule)
      → In c rs
      → is_candidate q c ≡ true
      → AtLeast (score q c) (select_from q best rs)
  unfolding select_from
  select_from-best best [] c i h = elim i [ ]
  select_from-best best (r ∷ rs) c (inl e) h =
      select_from-AtLeast (score q c) (consider q best r) rs
        (rw e (consider-AtLeast_self best r (rw e at h)))
  select_from-best best (r ∷ rs) c (inr i) h = select_from-best (consider q best r) rs c i h

  -- The choice is the one brought along, or a candidate of the list with its own score.
  select_from-eq-some :
      (best : Best) (rs : List DeadlineRule) (r : DeadlineRule) (s : ℕ)
      → select_from q best rs ≡ some (r, s)
      → (best ≡ some (r, s)) ⊎ (In r rs × (is_candidate q r ≡ true) × (s ≡ score q r))
  unfolding select_from
  select_from-eq-some best [] r s h = inl h
  select_from-eq-some best (x ∷ rs) r s h =
      elim (select_from-eq-some (consider q best x) rs r s h) [
        | inl e ↦ ground arith
        | inr (i, c, e) ↦ inr (inr i, c, e)
      ]

abbrev with_score : DeadlineRule → ℕ → Best
with_score r s = some (r, s)

-- With a choice comes its own score.
rule_of-eq-some :
    (b : Best) (r : DeadlineRule) → rule_of b ≡ some r → (s : ℕ) × (b ≡ with_score r s)
rule_of-eq-some none r h = cc
rule_of-eq-some (some (t, s)) r h = (s, cc)

chosen-In_list :
    (rules : List DeadlineRule) (q : Query) (r : DeadlineRule)
    → select_deadline_rule rules q ≡ some r
    → In r rules × (is_candidate q r ≡ true) × (select_from q none rules ≡ with_score r (score q r))
unfolding select_deadline_rule
chosen-In_list rules q r h =
    let (s, e) = rule_of-eq-some (select_from q none rules) r h in
    own_score s e (select_from-eq-some q none rules r s e)
  where
    own_score :
        (s : ℕ)
        → select_from q none rules ≡ with_score r s
        → (none ≡ with_score r s) ⊎ (In r rules × (is_candidate q r ≡ true) × (s ≡ score q r))
        → In r rules
          × (is_candidate q r ≡ true)
          × (select_from q none rules ≡ with_score r (score q r))
    own_score s e (inl bad) = cc
    own_score s e (inr (i, c, own)) = (i, c, cc)

-- What it means that a rule is the most specific one of the list that may apply.
pub record IsMostSpecific (rules : List DeadlineRule) (q : Query) (r : DeadlineRule) : Type 0 where
  pub listed : In r rules
  pub candidate : IsCandidate q r
  pub best : (c : DeadlineRule) → In c rules → IsCandidate q c → score q c ≤ score q r

pub select-IsMostSpecific :
    (rules : List DeadlineRule) (q : Query) (r : DeadlineRule)
    → select_deadline_rule rules q ≡ some r
    → IsMostSpecific rules q r
select-IsMostSpecific rules q r h =
    let (listed, fits, e) = chosen-In_list rules q r h in
    record {
      listed = listed;
      candidate = (is_candidate_iff q r).0 fits;
      best = λ c i k. rw e at (select_from-best q none rules c i ((is_candidate_iff q c).1 k));
    }

-- No rule is chosen exactly when none of the list may apply.
pub select-eq-none :
    (rules : List DeadlineRule) (q : Query)
    → (select_deadline_rule rules q ≡ none) ↔ ((c : DeadlineRule) → In c rules → ¬ IsCandidate q c)
unfolding select_deadline_rule
select-eq-none rules q = (λ h c i k. chosen h c i k, λ h. nothing h)
  where
    chosen :
        rule_of (select_from q none rules) ≡ none
        → (c : DeadlineRule) → In c rules
        → ¬ IsCandidate q c
    chosen h c i k = ground (arith, select_from-best q none rules c i ((is_candidate_iff q c).1 k))

    nothing :
        ((c : DeadlineRule) → In c rules → ¬ IsCandidate q c)
        → rule_of (select_from q none rules) ≡ none
    nothing h = elim (Option-cases (rule_of (select_from q none rules))) [
      | inl e ↦ e
      | inr (r, e) ↦
          let (i, fits, own) = chosen-In_list rules q r e in
          absurd (h r i ((is_candidate_iff q r).0 fits))
    ]

-- The unique key of `deadline_rules`.
abbrev pub SameKey : DeadlineRule → DeadlineRule → Type 0
SameKey r t =
    (r.network_code ≡ t.network_code)
    × (r.stage ≡ t.stage)
    × (r.region ≡ t.region)
    × (r.processor_code ≡ t.processor_code)

-- Two rules that may apply and are equally specific have the same key.
pub key_of_score :
    (q : Query) (r t : DeadlineRule)
    → IsCandidate q r
    → IsCandidate q t
    → score q r ≡ score q t
    → SameKey r t
unfolding score
key_of_score q r t a b e = ground (arith, a, b)

-- Rows with one key are one row, also where the processor is null.
abbrev pub HasUniqueKeys : List DeadlineRule → Type 0
HasUniqueKeys rules = (r t : DeadlineRule) → In r rules → In t rules → SameKey r t → r ≡ t

-- At most one rule is the most specific one.
pub IsMostSpecific-unique :
    (rules : List DeadlineRule) (q : Query) (r t : DeadlineRule)
    → HasUniqueKeys rules
    → IsMostSpecific rules q r
    → IsMostSpecific rules q t
    → r ≡ t
IsMostSpecific-unique rules q r t unique a b = unique r t a.listed b.listed (
    key_of_score q r t a.candidate b.candidate
      (omega (arith, a.best t b.listed b.candidate, b.best r a.listed a.candidate)))

pub select_deadline_rule_lem :
    (rules : List DeadlineRule) (q : Query)
    → HasUniqueKeys rules
    → ((r : DeadlineRule) → (select_deadline_rule rules q ≡ some r) ↔ IsMostSpecific rules q r)
      × ((select_deadline_rule rules q ≡ none)
          ↔ ((c : DeadlineRule) → In c rules → ¬ IsCandidate q c))
select_deadline_rule_lem rules q unique =
    (λ r. (select-IsMostSpecific rules q r, chosen r), select-eq-none rules q)
  where
    chosen : (r : DeadlineRule) → IsMostSpecific rules q r → select_deadline_rule rules q ≡ some r
    chosen r a = elim (Option-cases (select_deadline_rule rules q)) [
      | inl e ↦ absurd ((select-eq-none rules q).0 e r a.listed a.candidate)
      | inr (t, e) ↦
          e
          ∙ ap some (IsMostSpecific-unique rules q t r unique (select-IsMostSpecific rules q t e) a)
    ]

-- The choice does not depend on the order in which the database returns the rows: two lists with the
-- same rows, where rows with one key are one row, give the same rule.
pub select_deadline_rule_order :
    (rules rows : List DeadlineRule) (q : Query)
    → HasUniqueKeys rules
    → ((r : DeadlineRule) → In r rules ↔ In r rows)
    → select_deadline_rule rules q ≡ select_deadline_rule rows q
select_deadline_rule_order rules rows q unique same =
    elim (Option-cases (select_deadline_rule rules q)) [
      | inl e ↦
          e ∙ sym ((select-eq-none rows q).1 (λ c i. (select-eq-none rules q).0 e c ((same c).1 i)))
      | inr (r, e) ↦ e ∙ sym (((select_deadline_rule_lem rows q unique_rows).0 r).1 (moved r e))
    ]
  where
    unique_rows : HasUniqueKeys rows
    unique_rows r t i j k = unique r t ((same r).1 i) ((same t).1 j) k

    moved : (r : DeadlineRule) → select_deadline_rule rules q ≡ some r → IsMostSpecific rows q r
    moved r e =
        let a = select-IsMostSpecific rules q r e in
        record {
          listed = (same r).0 a.listed;
          candidate = a.candidate;
          best = λ c i k. a.best c ((same c).1 i) k;
        }

IsCandidate-of_key :
    (q : Query) (r t : DeadlineRule) → SameKey r t → IsCandidate q r → IsCandidate q t
IsCandidate-of_key q r t k a = ground arith

score_of_key : (q : Query) (r t : DeadlineRule) → SameKey r t → score q t ≡ score q r
unfolding score
score_of_key q r t k = ground arith

-- Of two rules that may apply with the same key, the earlier row wins: where the key does not
-- determine the row, the order of the rows decides the deadline.
pub select_tie :
    (r t : DeadlineRule) (q : Query)
    → IsCandidate q r
    → SameKey r t
    → (select_deadline_rule (r ∷ t ∷ []) q ≡ some r)
      × (select_deadline_rule (t ∷ r ∷ []) q ≡ some t)
unfolding select_deadline_rule
select_tie r t q a k =
    let fits : is_candidate q r ≡ true = (is_candidate_iff q r).1 a in
    let fits_too : is_candidate q t ≡ true =
      (is_candidate_iff q t).1 (IsCandidate-of_key q r t k a) in
    let same : score q t ≡ score q r = score_of_key q r t k in (ground arith, ground arith)
