-- ===== src/Tx/Laws.antt =====
-- What a transaction guarantees of its body, whatever the body does.
use chargeback_iq.Prelude.{
  ℕ, Option, none, some, Bool, true, false, ◌≡◌, refl, arith, if◌then◌else◌,
}
use chargeback_iq.Errors.{Thrown, AppError, Result, ok, err}
use chargeback_iq.Schema.{Db}
use chargeback_iq.Tx.{
  M, Outcome, returned, threw, ◌>>=◌, with_transaction, end_transaction, rolled_back, or_throw,
  lift, throw_if, ◌>>◌,
}

-- The state has the tables of `before`; only the generators may have moved.
abbrev pub SameTables : (before after : Db) → Type 0
SameTables before after = (n : ℕ) × (s : ℕ) × (after ≡ record before { drawn = n; event_seq = s })

end_transaction-eq-threw :
    {A : Type 0} (o : Outcome A) (db db' : Db) (e : Thrown)
    → end_transaction db o ≡ threw e db'
    → SameTables db db'
unfolding rolled_back
end_transaction-eq-threw (returned a after) db db' e h = cc
end_transaction-eq-threw (threw x after) db db' e h = (after.drawn, after.event_seq, ground arith)

end_transaction-eq-returned :
    {A : Type 0} (o : Outcome A) (db db' : Db) (a : A)
    → end_transaction db o ≡ returned a db'
    → o ≡ returned a db'
end_transaction-eq-returned (returned b after) db db' a h = h
end_transaction-eq-returned (threw x after) db db' a h = cc

-- Equal outcomes have equal values and states.
pub returned-value : {A : Type 0} {a b : A} {db db' : Db} → returned a db ≡ returned b db' → b ≡ a
returned-value h = cc

pub returned-state :
    {A : Type 0} {a b : A} {db db' : Db} → returned a db ≡ returned b db' → db' ≡ db
returned-state h = cc

module _ {A : Type 0} (m : M A) (db db' : Db) where
  -- A transaction that throws leaves every table as it was.
  pub with_transaction-eq-threw :
      (e : Thrown) → with_transaction m db ≡ threw e db' → SameTables db db'
  unfolding with_transaction
  with_transaction-eq-threw e h = end_transaction-eq-threw (m db) db db' e h

  -- A transaction that returns is its body.
  pub with_transaction-eq-returned :
      (a : A) → with_transaction m db ≡ returned a db' → m db ≡ returned a db'
  unfolding with_transaction
  with_transaction-eq-returned a h = end_transaction-eq-returned (m db) db db' a h

module _ {A B : Type 0} (m : M A) (f : A → M B) (db : Db) where
  -- The parts of a block that returned.
  pub bind-eq-returned :
      (b : B) (db' : Db)
      → (m >>= f) db ≡ returned b db'
      → (a : A) × (mid : Db) × (m db ≡ returned a mid) × (f a mid ≡ returned b db')
  bind-eq-returned b db' h = parts (m db) refl h
    where
      parts :
          (o : Outcome A)
          → m db ≡ o
          → elim o [ returned a mid ↦ f a mid | threw e mid ↦ threw e mid ] ≡ returned b db'
          → (a : A) × (mid : Db) × (m db ≡ returned a mid) × (f a mid ≡ returned b db')
      parts (returned a mid) e h = (a, mid, e, h)
      parts (threw x mid) e h = cc

module _ {A B : Type 0} (f : A → M B) (db : Db) (b : B) (db' : Db) where
  pub or_throw-eq-returned :
      (o : Option A) (e : AppError)
      → (or_throw o e >>= f) db ≡ returned b db'
      → (a : A) × (o ≡ some a) × (f a db ≡ returned b db')
  or_throw-eq-returned none e h = cc
  or_throw-eq-returned (some a) e h = (a, refl, h)

  pub lift-eq-returned :
      (r : Result A)
      → (lift r >>= f) db ≡ returned b db'
      → (a : A) × (r ≡ ok a) × (f a db ≡ returned b db')
  lift-eq-returned (err e) h = cc
  lift-eq-returned (ok a) h = (a, refl, h)

pub throw_if-eq-returned :
    {B : Type 0} (m : M B) (db : Db) (b : B) (db' : Db) (t : Bool) (e : AppError)
    → (throw_if t e >> m) db ≡ returned b db'
    → (t ≡ false) × (m db ≡ returned b db')
throw_if-eq-returned m db b db' true e h = cc
throw_if-eq-returned m db b db' false e h = (refl, h)

-- A branch that is not taken.
pub else-eq :
    {A : Type 0} {x : Outcome A} (b : Bool) (m n : M A) (db : Db)
    → b ≡ false
    → (if b then m else n) db ≡ x
    → n db ≡ x
else-eq true m n db e h = cc
else-eq false m n db e h = h
