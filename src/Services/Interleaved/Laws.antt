-- ===== src/Services/Interleaved/Laws.antt =====
-- Why a transaction that holds the lock of its row is one step: what it read is what it writes to.
use mathlib.Core.Option
use chargeback_iq.Prelude.{
  ℕ, String, Option, none, some, ◌≡◌, ◌≢◌, ◌⊎◌, refl, sym, ap, subst, ◌∙◌, arith, inl, inr, find,
  nat_eq, Bool-cases, ==_iff, ==_ne, find-eq-some,
}
use chargeback_iq.Schema.{Db, Env, Dispute, Evidence}
use chargeback_iq.Tx.{Outcome, returned, threw, with_transaction}
use chargeback_iq.Tx.Laws.{with_transaction-eq-returned, with_transaction-eq-threw}
use chargeback_iq.Tx.Keeps.{state_of}
use chargeback_iq.Repositories.Disputes.{NewEvidence, lock_dispute_for_update, has_id}
use chargeback_iq.Services.DisputeService.{ChangeInput, change_locked, change_body, change_status}
use chargeback_iq.Services.DisputeService.ChangeStatus.{
  change_status-IsChanged, change_status-eq-threw,
}
use chargeback_iq.Services.DisputeService.Rows.{find-after_change, moved_row}
use chargeback_iq.Services.Evidence.{write_evidence}
use chargeback_iq.Services.Evidence.Laws.{write_evidence-eq-returned}
use chargeback_iq.Services.Interleaved.{
  Job, changing, Pc, locked, checked, ended, System, update, IsFree, Move, lock, commit, check,
  file, call, Reachable, start, later,
}

-- With the row that it has read still there, the rest of the transaction is the whole call.
pub commit_is_call :
    (env : Env) (input : ChangeInput) (current : Dispute) (db : Db)
    → find (has_id input.dispute_id) db.disputes ≡ some current
    → with_transaction (change_locked env input current) db ≡ change_status env input db
unfolding change_status change_body with_transaction lock_dispute_for_update
commit_is_call env input current db h = rw (h) refl

-- A change of one dispute leaves the rows of the others.
other_row :
    (env : Env) (input : ChangeInput) (db : Db) (id : String)
    → id ≢ input.dispute_id
    → find (has_id id) (state_of (change_status env input db)).disputes
      ≡ find (has_id id) db.disputes
other_row env input db id ne = ends (change_status env input db) refl
  where
    unmoved :
        (current : Dispute) (o : Option Dispute)
        → find (has_id id) db.disputes ≡ o
        → Option.map (moved_row env input db current) o ≡ o
    unmoved current none e = refl
    unmoved current (some d) e =
        let same : d.id ≡ id = (==_iff d.id id).0 (find-eq-some (has_id id) db.disputes d e).1 in
        ground (arith, ==_ne d.id input.dispute_id (λ q. ne (sym same ∙ q)))

    ends :
        (o : Outcome Dispute)
        → change_status env input db ≡ o
        → find (has_id id) (state_of o).disputes ≡ find (has_id id) db.disputes
    ends (returned u after) e =
        let c = change_status-IsChanged env input db u after e in
        ap (λ (x : Db). find (has_id id) x.disputes) c.state
        ∙ find-after_change env input db c.current id
        ∙ unmoved c.current (find (has_id id) db.disputes) refl
    ends (threw x after) e =
        let (n, m, same) = change_status-eq-threw env input db x after e in
        ap (λ (x : Db). find (has_id id) x.disputes) same

-- What the locks guarantee.
pub record HoldsLocks (jobs : ℕ → Job) (s : System) : Type 0 where
  pub job :
      (i : ℕ) (c : Dispute) (input : ChangeInput)
      → s.pc i ≡ locked c
      → jobs i ≡ changing input
      → c.id ≡ input.dispute_id
  pub row : (i : ℕ) (c : Dispute) → s.pc i ≡ locked c → find (has_id c.id) s.db.disputes ≡ some c
  pub alone :
      (i j : ℕ) (c d : Dispute) → s.pc i ≡ locked c → s.pc j ≡ locked d → c.id ≡ d.id → i ≡ j

-- Filing evidence writes no dispute.
filed_disputes :
    (env : Env) (input : NewEvidence) (db : Db)
    → (state_of (with_transaction (write_evidence env input) db)).disputes ≡ db.disputes
filed_disputes env input db = ends (with_transaction (write_evidence env input) db) refl
  where
    ends :
        (o : Outcome Evidence)
        → with_transaction (write_evidence env input) db ≡ o
        → (state_of o).disputes ≡ db.disputes
    ends (returned item after) e =
        let (r, same) =
          write_evidence-eq-returned env input db item after
            (with_transaction-eq-returned (write_evidence env input) db after item e) in
        ap (λ (x : Db). x.disputes) same
    ends (threw x after) e =
        let (n, m, same) = with_transaction-eq-threw (write_evidence env input) db after x e in
        ap (λ (x : Db). x.disputes) same

-- A worker that stands at a lock after a step of another kind has stood there before.
stood :
    (f : ℕ → Pc) (i j : ℕ) (p : Pc) (c : Dispute)
    → (p ≡ locked c → ⊥)
    → update f i p j ≡ locked c
    → (f j ≡ locked c) × (i ≢ j)
stood f i j p c free h = elim (Bool-cases (nat_eq i j)) [
  | inl e ↦ absurd (free (rw (e) at h))
  | inr e ↦ (rw (e) at h, ground arith)
]

module _ (env : Env) (jobs : ℕ → Job) where
  -- A step that ends no lock but its own, and leaves the rows of the others.
  released :
      (s : System) (after : Db) (i : ℕ) (p : Pc)
      → ((c : Dispute) → p ≡ locked c → ⊥)
      → ((j : ℕ) (c : Dispute)
          → s.pc j ≡ locked c
          → i ≢ j
          → find (has_id c.id) after.disputes ≡ find (has_id c.id) s.db.disputes)
      → HoldsLocks jobs s
      → HoldsLocks jobs (record { db = after; pc = update s.pc i p })
  released s after i p free rows h = record {
    job = λ j c input e. h.job j c input (stood s.pc i j p c (free c) e).0;
    row = λ j c e. let (f, ne) = stood s.pc i j p c (free c) e in rows j c f ne ∙ h.row j c f;
    alone = λ j k c d e q same.
        h.alone j k c d (stood s.pc i j p c (free c) e).0 (stood s.pc i k p d (free d) q).0 same;
  }

  HoldsLocks-commit :
      (s : System) (i : ℕ) (input : ChangeInput) (current : Dispute)
      → jobs i ≡ changing input
      → s.pc i ≡ locked current
      → HoldsLocks jobs s
      → HoldsLocks jobs (record {
        db = state_of (with_transaction (change_locked env input current) s.db);
        pc = update s.pc i ended;
      })
  HoldsLocks-commit s i input current e q h =
      let named : current.id ≡ input.dispute_id = h.job i current input q e in
      let found =
        subst (λ id. find (has_id id) s.db.disputes ≡ some current) named (h.row i current q) in
      released s _ i ended (λ c x. cc)
        (λ j c p ne.
          ap (λ o. find (has_id c.id) (state_of o).disputes)
            (commit_is_call env input current s.db found)
          ∙ other_row env input s.db c.id (λ x. ne (h.alone i j current c q p (named ∙ sym x))))
        h

  HoldsLocks-lock :
      (s : System) (i : ℕ) (input : ChangeInput) (current : Dispute)
      → jobs i ≡ changing input
      → IsFree s input.dispute_id
      → find (has_id input.dispute_id) s.db.disputes ≡ some current
      → HoldsLocks jobs s
      → HoldsLocks jobs (record { db = s.db; pc = update s.pc i (locked current) })
  HoldsLocks-lock s i input current e free found h = record { job = job; row = row; alone = alone }
    where
      named : current.id ≡ input.dispute_id
      named =
          (==_iff current.id input.dispute_id).0
            (find-eq-some (has_id input.dispute_id) s.db.disputes current found).1

      Stands : ℕ → Dispute → Type 0
      Stands j c = ((i ≡ j) × (c ≡ current)) ⊎ (s.pc j ≡ locked c)

      stands : (j : ℕ) (c : Dispute) → update s.pc i (locked current) j ≡ locked c → Stands j c
      stands j c q = elim (Bool-cases (nat_eq i j)) [
        | inl t ↦ inl (ground arith, (let r : locked current ≡ locked c = rw (t) at q in cc))
        | inr t ↦ inr (rw (t) at q)
      ]

      job :
          (j : ℕ) (c : Dispute) (x : ChangeInput)
          → update s.pc i (locked current) j ≡ locked c
          → jobs j ≡ changing x
          → c.id ≡ x.dispute_id
      job j c x q r = elim (stands j c q) [
        | inl (a, b) ↦ cc (a, b, e, r, named)
        | inr p ↦ h.job j c x p r
      ]

      row :
          (j : ℕ) (c : Dispute)
          → update s.pc i (locked current) j ≡ locked c
          → find (has_id c.id) s.db.disputes ≡ some c
      row j c q = elim (stands j c q) [
        | inl (a, b) ↦
            subst (λ (x : Dispute). find (has_id x.id) s.db.disputes ≡ some x) (sym b)
              (subst (λ id. find (has_id id) s.db.disputes ≡ some current) (sym named) found)
        | inr p ↦ h.row j c p
      ]

      alone :
          (j k : ℕ) (c d : Dispute)
          → update s.pc i (locked current) j ≡ locked c
          → update s.pc i (locked current) k ≡ locked d
          → c.id ≡ d.id
          → j ≡ k
      alone j k c d q r same = elim (stands j c q) [
        | inl (a, b) ↦ elim (stands k d r) [
          | inl (x, y) ↦ sym a ∙ x
          | inr p ↦ absurd (free k d p (cc (same, b, named)))
        ]
        | inr p ↦ elim (stands k d r) [
          | inl (x, y) ↦ absurd (free j c p (cc (same, y, named)))
          | inr o ↦ h.alone j k c d p o same
        ]
      ]

  HoldsLocks-move : {s t : System} → Move env jobs s t → HoldsLocks jobs s → HoldsLocks jobs t
  unfolding lock_dispute_for_update
  HoldsLocks-move {s} (lock i input current e idle_i free found) h =
      HoldsLocks-lock s i input current e free found h
  HoldsLocks-move {s} (commit i input current e q) h = HoldsLocks-commit s i input current e q h
  HoldsLocks-move {s} (check i input details e q found is_open) h =
      released s s.db i checked (λ c x. cc) (λ j c p ne. refl) h
  HoldsLocks-move {s} (file i input e q) h =
      released s _ i ended (λ c x. cc)
        (λ j c p ne. ap (λ ds. find (has_id c.id) ds) (filed_disputes env input s.db)) h
  HoldsLocks-move {s} (call {after} step holds) h = record {
    job = h.job;
    row = λ j c p. holds j c p ∙ h.row j c p;
    alone = h.alone;
  }

  pub Reachable-HoldsLocks : {db : Db} {s : System} → Reachable env jobs db s → HoldsLocks jobs s
  Reachable-HoldsLocks start = record {
    job = λ i c input e. cc;
    row = λ i c e. cc;
    alone = λ i j c d e. cc;
  }
  Reachable-HoldsLocks (later r m) = HoldsLocks-move m (Reachable-HoldsLocks r)
