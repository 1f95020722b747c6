-- ===== src/Repositories/Disputes/Queue.antt =====
-- src/repositories/disputeRepository.js: the reads with an order, over all disputes and over the
-- events of one. Rows that tie under ORDER BY keep the order of the table.
use chargeback_iq.Prelude.{
  ℕ, String, Option, none, some, Bool, true, false, ◌&&◌, List, [], ◌∷◌, keep, if◌then◌else◌, ◌==◌,
  leb, zero, suc, find,
}
use chargeback_iq.Schema.{Db, Dispute, Event, Evidence, Kind}
use chargeback_iq.Repositories.Disputes.{is_evidence_of, is_kind}

abbrev pub is_open : Dispute → Bool
is_open d = elim d.closed_at [ none ↦ true | some t ↦ false ]

abbrev pub is_overdue : ℕ → Dispute → Bool
is_overdue now d = is_open d && leb d.respond_by now

module _ {A : Type 0} (key : A → ℕ) where
  -- ORDER BY key ASC
  unfoldable pub insert_by : A → List A → List A
  insert_by x [] = x ∷ []
  insert_by x (y ∷ ys) = if leb (key x) (key y) then x ∷ y ∷ ys else y ∷ insert_by x ys

  unfoldable pub order_by : List A → List A
  unfolding insert_by
  order_by [] = []
  order_by (x ∷ xs) = insert_by x (order_by xs)

-- LIMIT n
abbrev pub take {ℓ} : {A : Type ℓ} → ℕ → List A → List A
take zero xs = []
take (suc n) [] = []
take (suc n) (x ∷ xs) = x ∷ take n xs

unfoldable pub list_overdue_open_disputes : ℕ → Db → List Dispute
unfolding order_by
list_overdue_open_disputes now db = order_by (λ d. d.respond_by) (keep (is_overdue now) db.disputes)

-- The join to `reason_codes` keeps every dispute: the foreign key has exactly one row.
unfoldable pub list_open_disputes_by_deadline : ℕ → Db → List Dispute
unfolding order_by
list_open_disputes_by_deadline limit db =
    take limit (order_by (λ d. d.respond_by) (keep is_open db.disputes))

unfoldable pub list_events : String → Db → List Event
unfolding order_by
list_events dispute_id db = order_by (λ e. e.seq) (keep (λ e. e.dispute_id == dispute_id) db.events)

-- What `listEvidence` reads of an item.
pub record ListedEvidence : Type 0 where
  pub item : Evidence
  pub kind_name : String

-- The join to `evidence_kinds`: the row of an item, unless its kind has none.
abbrev pub with_kind : Evidence → Option Kind → List ListedEvidence → List ListedEvidence
with_kind e none rows = rows
with_kind e (some k) rows = record { item = e; kind_name = k.name } ∷ rows

abbrev pub join_kinds : List Kind → List Evidence → List ListedEvidence
join_kinds kinds [] = []
join_kinds kinds (e ∷ es) = with_kind e (find (is_kind e.kind_code) kinds) (join_kinds kinds es)

unfoldable pub list_evidence : String → Db → List ListedEvidence
unfolding order_by
list_evidence dispute_id db =
    join_kinds db.evidence_kinds
      (order_by (λ e. e.created_at) (keep (is_evidence_of dispute_id) db.evidence))
