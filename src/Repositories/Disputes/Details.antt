-- ===== src/Repositories/Disputes/Details.antt =====
-- What `findDisputeById` has found.
use chargeback_iq.Prelude.{
  ◌∙◌, String, Option, none, some, Bool, true, List, [], ◌∷◌, ◌≡◌, refl, ap, subst, arith, find,
  any,
}
use chargeback_iq.Schema.{Db, Dispute, Status, ReasonCode}
use chargeback_iq.Repositories.Disputes.{
  DisputeDetails, find_dispute_by_id, joined, details, has_id, has_code,
}

any_of_found :
    {A : Type 0} (p : A → Bool) (xs : List A) (x : A) → find p xs ≡ some x → any p xs ≡ true
any_of_found p [] x h = cc
any_of_found p (y ∷ xs) x h = ground (arith, any_of_found p xs x)

-- The row of the dispute, whose status is in the table of statuses.
pub find_dispute_by_id-eq-some :
    (id : String) (db : Db) (d : DisputeDetails)
    → find_dispute_by_id id db ≡ some d
    → (find (has_id id) db.disputes ≡ some d.dispute)
      × (any (has_code d.dispute.status_code) db.statuses ≡ true)
unfolding find_dispute_by_id
find_dispute_by_id-eq-some id db d h = of_row (find (has_id id) db.disputes) refl h
  where
    of_details :
        (x : Dispute) (rc : Option ReasonCode) (s : Option Status)
        → find (has_code x.status_code) db.statuses ≡ s
        → details x rc s ≡ some d
        → (x ≡ d.dispute) × (any (has_code x.status_code) db.statuses ≡ true)
    of_details x none none e k = cc
    of_details x (some rc) none e k = cc
    of_details x none (some s) e k = cc
    of_details x (some rc) (some s) e k =
        (ground arith, any_of_found (has_code x.status_code) db.statuses s e)

    of_row :
        (o : Option Dispute)
        → find (has_id id) db.disputes ≡ o
        → joined db o ≡ some d
        → (find (has_id id) db.disputes ≡ some d.dispute)
          × (any (has_code d.dispute.status_code) db.statuses ≡ true)
    of_row none e k = cc
    of_row (some x) e k =
        let (same, known) = of_details x _ _ refl k in
        (
          e ∙ ap some same,
          subst (λ (y : Dispute). any (has_code y.status_code) db.statuses ≡ true) same known,
        )
