-- ===== src/Tx/Keeps.antt =====
-- Invariants of computations on the database, one rule for each way to build one.
use chargeback_iq.Prelude.{Option, none, some, Bool, true, false, ◌≡◌, refl, if◌then◌else◌}
use chargeback_iq.Errors.{Thrown, AppError, Result, ok, err}
use chargeback_iq.Schema.{Db}
use chargeback_iq.Tx.{
  M, Outcome, returned, threw, ◌>>=◌, pure, reads, or_throw, catch, lift, with_transaction,
  end_transaction, rolled_back,
}
use chargeback_iq.Tx.Laws.{SameTables}

-- The state that a computation leaves, whether it returns or throws.
abbrev pub state_of : {A : Type 0} → Outcome A → Db
state_of (returned a db) = db
state_of (threw e db) = db

-- `m` keeps `P`, whether it returns or throws.
pub record Keeps {A : Type 0} (P : Db → Type 0) (m : M A) : Type 0 where
  pub at : (db : Db) → P db → P (state_of (m db))

module _ (P : Db → Type 0) where
  module _ {A : Type 0} where
    Keeps-or_throw : (o : Option A) (e : AppError) → Keeps P (or_throw o e)
    Keeps-or_throw none e = record { at = λ db p. p }
    Keeps-or_throw (some a) e = record { at = λ db p. p }

    pub Keeps-pure : (a : A) → Keeps P (pure a)
    Keeps-pure a = record { at = λ db p. p }

    pub Keeps-reads : (f : Db → A) → Keeps P (reads f)
    Keeps-reads f = record { at = λ db p. p }

    pub Keeps-lift : (x : Result A) → Keeps P (lift x)
    Keeps-lift (ok a) = record { at = λ db p. p }
    Keeps-lift (err e) = record { at = λ db p. p }

    pub Keeps-if : (b : Bool) (m n : M A) → Keeps P m → Keeps P n → Keeps P (if b then m else n)
    Keeps-if true m n km kn = km
    Keeps-if false m n km kn = kn

  module _ {A B : Type 0} where
    pub Keeps-bind :
        (m : M A) (f : A → M B) → Keeps P m → ((a : A) → Keeps P (f a)) → Keeps P (m >>= f)
    Keeps-bind m f km kf = record { at = λ db p. after (m db) (km.at db p) }
      where
        after :
            (o : Outcome A)
            → P (state_of o)
            → P (state_of (elim o [ returned a mid ↦ f a mid | threw e mid ↦ threw e mid ]))
        after (returned a mid) q = (kf a).at mid q
        after (threw e mid) q = q

    pub Keeps-or_throw-bind :
        (o : Option A) (e : AppError) (f : A → M B)
        → ((a : A) → Keeps P (f a))
        → Keeps P (or_throw o e >>= f)
    Keeps-or_throw-bind o e f kf = Keeps-bind (or_throw o e) f (Keeps-or_throw o e) kf

  module _ {A : Type 0} where
    pub Keeps-catch :
        (m : M A) (handler : Thrown → M A)
        → Keeps P m
        → ((e : Thrown) → Keeps P (handler e))
        → Keeps P (catch m handler)
    Keeps-catch m handler km kh = record { at = λ db p. after (m db) (km.at db p) }
      where
        after :
            (o : Outcome A)
            → P (state_of o)
            → P (
                state_of (elim o [ returned a mid ↦ returned a mid | threw e mid ↦ handler e mid ]))
        after (returned a mid) q = q
        after (threw e mid) q = (kh e).at mid q

    -- A transaction keeps what its body keeps when it returns, if a change of the generators keeps it.
    pub Keeps-with_transaction :
        (m : M A)
        → ((db db' : Db) → SameTables db db' → P db → P db')
        → ((db : Db) (a : A) (db' : Db) → P db → m db ≡ returned a db' → P db')
        → Keeps P (with_transaction m)
    unfolding with_transaction rolled_back
    Keeps-with_transaction m same km = record { at = λ db p. after db p (m db) refl }
      where
        after : (db : Db) → P db → (o : Outcome A) → m db ≡ o → P (state_of (end_transaction db o))
        after db p (returned a mid) e = km db a mid p e
        after db p (threw x mid) e = same db _ (mid.drawn, mid.event_seq, refl) p

    -- A computation keeps what both of its ends keep.
    pub Keeps_of_ends :
        (m : M A)
        → ((db : Db) (a : A) (db' : Db) → P db → m db ≡ returned a db' → P db')
        → ((db : Db) (e : Thrown) (db' : Db) → m db ≡ threw e db' → P db → P db')
        → Keeps P m
    Keeps_of_ends m kr kt = record { at = λ db p. after db p (m db) refl }
      where
        after : (db : Db) → P db → (o : Outcome A) → m db ≡ o → P (state_of o)
        after db p (returned a mid) e = kr db a mid p e
        after db p (threw x mid) e = kt db x mid e p
