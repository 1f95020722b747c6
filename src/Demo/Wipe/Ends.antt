-- ===== src/Demo/Wipe/Ends.antt =====
-- How `wipe` ends, and what it leaves.
use chargeback_iq.Prelude.{
  Bool, true, false, not, ◌&&◌, List, [], ◌∷◌, ◌≡◌, refl, ap, ◌∙◌, inl, inr, arith, any, keep, In,
  In-of_In-keep, any-eq-false, Bool-cases, if◌then◌else◌, ◌==◌, ==_refl,
}
use chargeback_iq.Errors.{database}
use chargeback_iq.Schema.{Db, Dispute, Event, Evidence, Delivery, Volume}
use chargeback_iq.Tx.{
  M, returned, threw, ◌>>=◌, ◌>>◌, with_transaction, rolled_back, end_transaction,
}
use chargeback_iq.Demo.Wipe.{
  is_demo, is_demo_operator, is_demo_merchant, in_scope, is_scoped, names, delete_unless,
  delete_deliveries, delete_events, delete_evidence, is_dispute_used, delete_disputes,
  delete_volumes, is_demo_payment, is_payment_used, delete_payments, is_merchant_used,
  delete_merchants, is_operator_used, delete_operators, wipe_body, wipe,
}

any-keep :
    {A : Type 0} (p q : A → Bool) (xs : List A)
    → ((x : A) → In x xs → q x ≡ true → p x ≡ false)
    → any p (keep q xs) ≡ false
any-keep p q [] h = refl
any-keep p q (x ∷ xs) h = elim (Bool-cases (q x)) [
  | inl e ↦ ground (arith, h x (inl refl) e, any-keep p q xs (λ y i. h y (inr i)))
  | inr e ↦ ground (arith, any-keep p q xs (λ y i. h y (inr i)))
]

-- What a kept element passes.
pub passed :
    {A : Type 0} (p : A → Bool) (xs : List A) (x : A)
    → In x (keep (λ y. not (p y)) xs)
    → In x xs × (p x ≡ false)
passed p xs x i = let (j, h) = In-of_In-keep (λ y. not (p y)) xs x i in (j, ground arith)

-- What is selected is gone.
any-keep-not : {A : Type 0} (p : A → Bool) (xs : List A) → any p (keep (λ x. not (p x)) xs) ≡ false
any-keep-not p xs = any-keep p (λ x. not (p x)) xs (λ x i h. ground arith)

-- The rows of the demo are gone but for the operators.
abbrev without_cases : Db → Db
without_cases db = record db {
  deliveries = keep (λ (w : Delivery). not (names (is_scoped db) w.dispute_id)) db.deliveries;
  events = keep (λ (e : Event). not (is_scoped db e.dispute_id)) db.events;
  evidence = keep (λ (e : Evidence). not (is_scoped db e.dispute_id)) db.evidence;
  disputes = keep (λ (d : Dispute). not (is_scoped db d.id)) db.disputes;
  volumes = keep (λ (v : Volume). not (is_demo_merchant db.merchants v.merchant_id)) db.volumes;
  payments = keep (λ t. not (is_demo_payment db.merchants t)) db.payments;
  merchants = keep (λ m. not (is_demo m)) db.merchants;
}

-- The rows of the demo are gone.
abbrev pub wiped : Db → Db
wiped db = record (without_cases db) {
  operators = keep (λ o. not (is_demo_operator o)) db.operators;
}

-- A row that is no part of the demo names one of its operators.
abbrev pub is_demo_operator_needed : Db → Bool
is_demo_operator_needed db = is_operator_used (without_cases db)

-- A dispute about a payment of the demo is selected.
scoped_of_in_scope :
    (db : Db) (d : Dispute) → In d db.disputes → in_scope db d ≡ true → is_scoped db d.id ≡ true
unfolding is_scoped
scoped_of_in_scope db d i h =
    elim (Bool-cases (any (λ (x : Dispute). x.id == d.id && in_scope db x) db.disputes)) [
      | inl e ↦ e
      | inr e ↦ absurd (
          ground (
            arith,
            any-eq-false (λ (x : Dispute). x.id == d.id && in_scope db x) db.disputes e d i,
            h,
            ==_refl d.id,
          ))
    ]

no_payment_used :
    (db : Db)
    → is_payment_used
        (record db { disputes = keep (λ (d : Dispute). not (is_scoped db d.id)) db.disputes })
      ≡ false
unfolding in_scope
no_payment_used db =
    any-keep (in_scope db) (λ (d : Dispute). not (is_scoped db d.id)) db.disputes
      (λ d i h. elim (Bool-cases (in_scope db d)) [
        | inl e ↦ absurd (ground (arith, scoped_of_in_scope db d i e))
        | inr e ↦ e
      ])

bind_eq :
    {A B : Type 0} (m : M A) (f : A → M B) {db mid : Db} {a : A}
    → m db ≡ returned a mid
    → (m >>= f) db ≡ f a mid
bind_eq m f h = ap (λ o. elim o [ returned a mid ↦ f a mid | threw e mid ↦ threw e mid ]) h

unless_eq :
    {r : Bool} {after : Db} (db : Db) → r ≡ false → delete_unless r after db ≡ returned tt after
unless_eq db h = rw (h)

unless_cases :
    (r : Bool) (after db : Db)
    → delete_unless r after db ≡ (if r then threw (database "23503") db else returned tt after)
unless_cases true after db = refl
unless_cases false after db = refl

module _ (db : Db) where
  -- The events, the evidence items and the deliveries of the demo are gone.
  abbrev without_children : Db
  without_children = record db {
    deliveries = keep (λ (w : Delivery). not (names (is_scoped db) w.dispute_id)) db.deliveries;
    events = keep (λ (e : Event). not (is_scoped db e.dispute_id)) db.events;
    evidence = keep (λ (e : Evidence). not (is_scoped db e.dispute_id)) db.evidence;
  }

  abbrev without_disputes : Db
  without_disputes = record without_children {
    disputes = keep (λ (d : Dispute). not (is_scoped db d.id)) db.disputes;
  }

  abbrev without_payments : Db
  without_payments = record without_disputes {
    volumes = keep (λ (v : Volume). not (is_demo_merchant db.merchants v.merchant_id)) db.volumes;
    payments = keep (λ t. not (is_demo_payment db.merchants t)) db.payments;
  }

  disputes_unused : is_dispute_used (is_scoped db) without_children ≡ false
  disputes_unused = ground (
    arith,
    any-keep-not (λ (e : Event). is_scoped db e.dispute_id) db.events,
    any-keep-not (λ (e : Evidence). is_scoped db e.dispute_id) db.evidence,
    any-keep-not (λ (w : Delivery). names (is_scoped db) w.dispute_id) db.deliveries,
  )

  merchants_unused : is_merchant_used without_payments ≡ false
  merchants_unused = ground (
    arith,
    any-keep-not (is_demo_payment db.merchants) db.payments,
    any-keep-not (λ (v : Volume). is_demo_merchant db.merchants v.merchant_id) db.volumes,
  )

  disputes_gone : delete_disputes without_children ≡ returned tt without_disputes
  unfolding delete_disputes is_scoped in_scope
  disputes_gone = unless_eq _ disputes_unused

  payments_gone :
      (delete_volumes >> delete_payments) without_disputes ≡ returned tt without_payments
  unfolding delete_volumes delete_payments in_scope
  payments_gone = unless_eq _ (no_payment_used db)

  merchants_gone : delete_merchants without_payments ≡ returned tt (without_cases db)
  unfolding delete_merchants in_scope
  merchants_gone = unless_eq _ merchants_unused

  body_ends : wipe_body db ≡ (
      if is_demo_operator_needed db
      then threw (database "23503") (without_cases db)
      else returned tt (wiped db))
  unfolding wipe_body delete_deliveries delete_events delete_evidence is_scoped in_scope
      delete_operators delete_volumes
  body_ends =
      bind_eq delete_disputes
        (λ u. delete_volumes >> (delete_payments >> (delete_merchants >> delete_operators)))
        disputes_gone
      ∙ bind_eq (delete_volumes >> delete_payments) (λ u. delete_merchants >> delete_operators)
          payments_gone
      ∙ bind_eq delete_merchants (λ u. delete_operators) merchants_gone
      ∙ unless_cases (is_demo_operator_needed db) (wiped db) (without_cases db)

-- `wipe` removes the demo, or changes nothing.
pub wipe_ends :
    (db : Db)
    → wipe db
      ≡ (if is_demo_operator_needed db then threw (database "23503") db else returned tt (wiped db))
unfolding wipe with_transaction rolled_back
wipe_ends db = ap (end_transaction db) (body_ends db) ∙ ended (is_demo_operator_needed db)
  where
    ended :
        (b : Bool)
        → end_transaction db
            (if b then threw (database "23503") (without_cases db) else returned tt (wiped db))
          ≡ (if b then threw (database "23503") db else returned tt (wiped db))
    ended true = refl
    ended false = refl
