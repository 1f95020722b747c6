-- ===== src/Tx.antt =====
-- src/db/tx.js: a computation on the database that may throw, and the transaction around one.
--
-- A transaction is one step here: between BEGIN and COMMIT no other one is interleaved, which
-- Services.Interleaved does for the calls that share a dispute. Failures of the connection itself are
-- outside the model.
pub mod Laws
pub mod Keeps
use chargeback_iq.Prelude.{String, Option, none, some, Bool, true, false}
use chargeback_iq.Errors.{AppError, Thrown, app, Result, ok, err}
use chargeback_iq.Schema.{Db}

pub data Outcome (A : Type 0) : Type 0 where
  returned : A → Db → Outcome A
  threw : Thrown → Db → Outcome A

abbrev pub M : Type 0 → Type 0
M A = Db → Outcome A

infixl 5 ◌>>=◌ ◌>>◌
abbrev pub ◌>>=◌ : {A B : Type 0} → M A → (A → M B) → M B
◌>>=◌ m f db = elim (m db) [ returned a db' ↦ f a db' | threw e db' ↦ threw e db' ]

abbrev pub ◌>>◌ : {A B : Type 0} → M A → M B → M B
m >> k = m >>= λ _. k

module _ {A : Type 0} where
  abbrev pub pure : A → M A
  pure a db = returned a db

  abbrev pub throw : Thrown → M A
  throw e db = threw e db

  -- A query that only reads.
  abbrev pub reads : (Db → A) → M A
  reads f db = returned (f db) db

  -- `if (!x) throw e`
  abbrev pub or_throw : Option A → AppError → M A
  or_throw none e db = threw (app e) db
  or_throw (some a) e db = returned a db

  -- A call of a function that may throw and does not touch the database.
  abbrev pub lift : Result A → M A
  lift (ok a) db = returned a db
  lift (err e) db = threw e db

  -- A statement that writes, unless it violates a constraint: then it throws the SQLSTATE code.
  abbrev pub write_unless : Option String → A → Db → M A
  write_unless none a after db = returned a after
  write_unless (some code) a after db = threw (Thrown.database code) db

  -- `try { … } catch (err) { … }`
  abbrev pub catch : M A → (Thrown → M A) → M A
  catch m handler db = elim (m db) [ returned a db' ↦ returned a db' | threw e db' ↦ handler e db' ]

-- `if (test) throw e`
abbrev pub throw_if : Bool → AppError → M (Unit {0})
throw_if true e db = threw (app e) db
throw_if false e db = returned tt db

-- The state after ROLLBACK: the tables of `before`, the generators of `after`.
unfoldable pub rolled_back : (before after : Db) → Db
rolled_back before after = record before { drawn = after.drawn; event_seq = after.event_seq }

abbrev pub end_transaction : {A : Type 0} → Db → Outcome A → Outcome A
end_transaction before (returned a after) = returned a after
end_transaction before (threw e after) = threw e (rolled_back before after)

unfoldable pub with_transaction : {A : Type 0} → M A → M A
with_transaction m db = end_transaction db (m db)
