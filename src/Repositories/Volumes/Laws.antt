-- ===== src/Repositories/Volumes/Laws.antt =====
-- Which month a dispute counts in, and that a stored volume is the one that is read.
use chargeback_iq.Prelude.{
  ℕ, suc, ◌≤◌, ◌<◌, String, some, Bool, true, false, List, [], ◌∷◌, ◌≡◌, ◌↔◌, ◌⊎◌, inl, inr, refl,
  subst, arith, find, keep, length, ◌&&◌, leb, ltb, any, map, if◌then◌else◌, ◌==◌, nat_eq,
  Bool-cases,
}
use chargeback_iq.Deadlines.{at, max_time}
use chargeback_iq.Schema.{Db, Dispute, Volume}
use chargeback_iq.Tx.{returned}
use chargeback_iq.Repositories.Disputes.Laws.{write_unless-eq-returned}
use chargeback_iq.Repositories.Volumes.{
  Calendar, NewVolume, volume_row, is_volume_of, same_volume, upsert_row, upsert_monthly_volume,
  find_monthly_volume, is_counted, count_disputes_in_month, next_month_start,
}

find-upsert_row :
    (row : Volume) (vs : List Volume) → find (same_volume row) (upsert_row row vs) ≡ some row
unfolding upsert_row
find-upsert_row row [] = ground arith
find-upsert_row row (v ∷ vs) = ground (arith, find-upsert_row row vs)

-- Rows with one key are rows of the same keys.
same_key :
    (row v : Volume) (m n : String) (t : ℕ)
    → same_volume row v ≡ true
    → is_volume_of m n t row ≡ false
    → is_volume_of m n t v ≡ false
same_key row v m n t e h = ground arith

other-replaced :
    (row : Volume) (m n : String) (t : ℕ) (vs : List Volume)
    → is_volume_of m n t row ≡ false
    → find (is_volume_of m n t) (map (λ v. if same_volume row v then row else v) vs)
      ≡ find (is_volume_of m n t) vs
other-replaced row m n t [] h = refl
other-replaced row m n t (v ∷ vs) h = elim (Bool-cases (same_volume row v)) [
  | inl e ↦ rw (e, h, same_key row v m n t e h) (other-replaced row m n t vs h)
  | inr e ↦ rw (e, other-replaced row m n t vs h) refl
]

other-upsert_row :
    (row : Volume) (m n : String) (t : ℕ) (vs : List Volume)
    → is_volume_of m n t row ≡ false
    → find (is_volume_of m n t) (upsert_row row vs) ≡ find (is_volume_of m n t) vs
unfolding upsert_row
other-upsert_row row m n t vs h = elim (Bool-cases (any (same_volume row) vs)) [
  | inl e ↦ rw e (other-replaced row m n t vs h)
  | inr e ↦ rw (e, h) refl
]

-- A volume that is stored is the one that is read for its merchant and network at any time of the same
-- day, and for every other merchant, network or day what is read is what was stored before.
pub upsert_monthly_volume_lem :
    (cal : Calendar) (v : NewVolume) (db : Db) (row : Volume) (db' : Db)
    → upsert_monthly_volume cal v db ≡ returned row db'
    → ((t : ℕ)
        → cal.date_of t ≡ cal.date_of v.period_month
        → find_monthly_volume cal v.merchant_id v.network_code (at t) db'
          ≡ returned (some (volume_row cal v)) db')
      × ((m n : String) (t : ℕ)
          → is_volume_of m n (cal.date_of t) (volume_row cal v) ≡ false
          → find_monthly_volume cal m n (at t) db'
            ≡ returned (find (is_volume_of m n (cal.date_of t)) db.volumes) db')
unfolding upsert_monthly_volume find_monthly_volume
upsert_monthly_volume_lem cal v db row db' h =
    let (allowed, same, after) = write_unless-eq-returned _ _ _ _ _ _ h in
    (
      λ t day. rw (after, day, find-upsert_row (volume_row cal v) db.volumes) refl,
      λ m n t other.
          rw (after, other-upsert_row (volume_row cal v) m n (cal.date_of t) db.volumes other) refl,
    )

ordered_cases : (a b : ℕ) → (a < b) ⊎ ((b < a) ⊎ (a ≡ b))
ordered_cases a b = ground arith

module _ (cal : Calendar) where
  -- A time lies between the starts of a month and the next exactly when it lies in the month.
  in_month_iff :
      (m t : ℕ) → ((cal.start_of m ≤ t) × (t < cal.start_of (suc m))) ↔ (cal.month_of t ≡ m)
  in_month_iff m t = (
    λ h. elim (ordered_cases (cal.month_of t) m) [
      | inl e ↦ absurd (omega (arith, h.0, cal.not_ended t, cal.ordered (suc (cal.month_of t)) m e))
      | inr (inl e) ↦
          absurd (omega (arith, h.1, cal.started t, cal.ordered (suc m) (cal.month_of t) e))
      | inr (inr e) ↦ e
    ],
    λ e. (
      subst (λ n. cal.start_of n ≤ t) e (cal.started t),
      subst (λ n. t < cal.start_of (suc n)) e (cal.not_ended t),
    ),
  )

  pub own_month : (m : ℕ) → cal.month_of (cal.start_of m) ≡ m
  own_month m = (in_month_iff m (cal.start_of m)).0 (omega arith, cal.not_empty m)

  in_month_test :
      (m t : ℕ)
      → (leb (cal.start_of m) t && ltb t (cal.start_of (suc m))) ≡ nat_eq (cal.month_of t) m
  in_month_test m t = elim (Bool-cases (nat_eq (cal.month_of t) m)) [
    | inl e ↦ ground (arith, (in_month_iff m t).1)
    | inr e ↦ ground (arith, (in_month_iff m t).0)
  ]

-- The dispute is about a payment of the merchant, on the network.
abbrev pub is_dispute_of : Db → (merchant_id network_code : String) → Dispute → Bool
is_dispute_of db merchant_id network_code d =
    any (λ t. t.id == d.transaction_id && t.merchant_id == merchant_id) db.payments
    && d.network_code == network_code

keep-eq :
    (p q : Dispute → Bool)
    → ((d : Dispute) → p d ≡ q d)
    → (ds : List Dispute) → keep p ds ≡ keep q ds
keep-eq p q same [] = refl
keep-eq p q same (d ∷ ds) = rw (same d, keep-eq p q same ds) refl

is_counted-eq :
    (cal : Calendar) (db : Db) (merchant_id network_code : String) (m : ℕ) (d : Dispute)
    → is_counted db merchant_id network_code (cal.start_of m) (cal.start_of (suc m)) d
      ≡ (is_dispute_of db merchant_id network_code d && nat_eq (cal.month_of d.received_at) m)
unfolding is_counted
is_counted-eq cal db merchant_id network_code m d =
    ground (arith, in_month_test cal m d.received_at)

-- For the start of a month, `countDisputesInMonth` counts the disputes about payments of the merchant,
-- on the network, that were received in that month, where the next month starts at a valid Date.
pub count_disputes_in_month_lem :
    (cal : Calendar) (merchant_id network_code : String) (m : ℕ) (db : Db)
    → cal.start_of (suc m) ≤ max_time
    → count_disputes_in_month cal merchant_id network_code (cal.start_of m) db
      ≡ returned
          (length (
            keep
              (λ d.
                is_dispute_of db merchant_id network_code d
                && nat_eq (cal.month_of d.received_at) m)
              db.disputes))
          db
unfolding count_disputes_in_month next_month_start
count_disputes_in_month_lem cal merchant_id network_code m db h =
    let valid : leb (cal.start_of (suc m)) max_time ≡ true = ground arith in
    rw
      (
        own_month cal m,
        valid,
        keep-eq _ _ (is_counted-eq cal db merchant_id network_code m) db.disputes,
      )
      refl
