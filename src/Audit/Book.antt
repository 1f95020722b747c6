-- ===== src/Audit/Book.antt =====
-- The abstract specification of the case services: a book of cases, with the status and the number of
-- evidence items of each, and the moves that a page of it may make.
pub mod Refines
use chargeback_iq.Prelude.{
  ℕ, suc, ◌≤◌, String, Option, none, some, Bool, true, false, List, ◌≡◌, if◌then◌else◌, ◌==◌, In,
  find,
}
use chargeback_iq.Lifecycle.{Transition}
use chargeback_iq.Schema.{Db, Dispute, Status}
use chargeback_iq.Repositories.Disputes.{has_id, count_evidence}
use chargeback_iq.Audit.{is_final}

-- What the book says of a case.
pub record Page : Type 0 where
  pub status : String
  pub evidence : ℕ

abbrev pub Book : Type 0
Book = String → Option Page

-- The book with a page written.
abbrev pub write : String → Page → Book → Book
write id p b k = if id == k then some p else b k

-- What may happen to a book: a case is opened, it makes a move of the table with the evidence that the
-- move asks for, or evidence is filed while its status is not terminal.
pub data BookStep (ts : List Transition) (statuses : List Status) (b c : Book) : Type 0 where
  opens :
      (id : String)
      → b id ≡ none
      → ((k : String)
          → c k ≡ write id (record { status = "CHARGEBACK_RECEIVED"; evidence = 0 }) b k)
      → BookStep ts statuses b c
  moves :
      (id : String) (p : Page) (t : Transition)
      → b id ≡ some p
      → In t ts
      → t.from_status ≡ p.status
      → (t.requires_evidence ≡ true → 1 ≤ p.evidence)
      → ((k : String) → c k ≡ write id (record p { status = t.to_status }) b k)
      → BookStep ts statuses b c
  files :
      (id : String) (p : Page)
      → b id ≡ some p
      → is_final statuses p.status ≡ false
      → ((k : String) → c k ≡ write id (record p { evidence = suc p.evidence }) b k)
      → BookStep ts statuses b c

pub data BookRun (ts : List Transition) (statuses : List Status) (b : Book) : Book → Type 0 where
  start : BookRun ts statuses b b
  then_same :
      {c d : Book} → BookRun ts statuses b c → ((k : String) → d k ≡ c k) → BookRun ts statuses b d
  then_step :
      {c d : Book} → BookRun ts statuses b c → BookStep ts statuses c d → BookRun ts statuses b d

abbrev page : Db → String → Option Dispute → Option Page
page db id none = none
page db id (some d) = some (record { status = d.status_code; evidence = count_evidence id db })

-- The book that a database holds.
abbrev pub book_of : Db → Book
book_of db id = page db id (find (has_id id) db.disputes)
