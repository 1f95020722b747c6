-- ===== src/Audit/Cases.antt =====
-- The cases of a database with the seeded table, along every run of the service layer: each one has
-- come by accepted moves, with the evidence that is on file for it.
use chargeback_iq.Prelude.{
  ℕ, zero, suc, ◌≤◌, String, ◌∷◌, ◌≡◌, ◌≢◌, refl, sym, subst, ap, ◌∙◌, inl, inr, arith,
  if◌then◌else◌, In, of_In-map, Bool-cases,
}
use chargeback_iq.Errors.{ok}
use chargeback_iq.Lifecycle.{Transition, Move, assert_transition, check_evidence}
use chargeback_iq.Lifecycle.Laws.{assert_transition_of_found}
use chargeback_iq.Schema.{Db, Env, Dispute, Evidence}
use chargeback_iq.Tx.Laws.{SameTables}
use chargeback_iq.Repositories.Disputes.{
  NewEvidence, count_evidence, is_expected, with_status, replace,
}
use chargeback_iq.Services.DisputeService.{OpenInput, OpenedDispute, ChangeInput, move_of}
use chargeback_iq.Services.DisputeService.ChangeStatus.{IsChanged, after_change, closes_at}
use chargeback_iq.Services.DisputeService.OpenDispute.{IsOpened, after_opening}
use chargeback_iq.Services.Evidence.Laws.{IsAdded, after_evidence}
use chargeback_iq.Services.Calls.{Reach}
use chargeback_iq.Services.Calls.Keeps.{IsPreserved, Reach_keeps}
use chargeback_iq.Seeds.{seeded_transitions}
use chargeback_iq.Seeds.Runs.{CaseRun, here, move, run_without_evidence, run_never_withdrawn}
use chargeback_iq.Audit.Opening.{opened-IsRowOf}

-- Every dispute was received as a chargeback and came to its status by accepted moves, as many items
-- being on file as there are now.
pub record HasRuns (db : Db) : Type 0 where
  pub table : db.transitions ≡ seeded_transitions
  pub runs :
      (d : Dispute)
      → In d db.disputes
      → CaseRun (count_evidence d.id db) "CHARGEBACK_RECEIVED" d.status_code

-- More evidence forbids no move.
accepted_mono :
    (m : Move) (t : Transition) (n k : ℕ)
    → n ≤ k
    → assert_transition seeded_transitions m n ≡ ok t
    → assert_transition seeded_transitions m k ≡ ok t
unfolding assert_transition check_evidence
accepted_mono m t n k h e = ground arith

CaseRun_mono : {n : ℕ} {start s : String} (k : ℕ) → n ≤ k → CaseRun n start s → CaseRun k start s
CaseRun_mono k h here = here
CaseRun_mono {n} k h (move m t r e p q) =
    move m t (CaseRun_mono k h r) (accepted_mono m t n k h e) p q

retarget : {n k : ℕ} {start s u : String} → n ≡ k → s ≡ u → CaseRun n start s → CaseRun k start u
retarget {n} {k} {start} {s} p q r = subst (CaseRun k start) q (subst (λ n. CaseRun n start s) p r)

HasRuns-of_same : (db db' : Db) → SameTables db db' → HasRuns db → HasRuns db'
unfolding count_evidence
HasRuns-of_same db db' (n, s, same) h =
    subst HasRuns (sym same) (record { table = h.table; runs = h.runs })

module _ (env : Env) where
  opened-HasRuns :
      (input : OpenInput) (db : Db) (o : OpenedDispute) (db' : Db)
      → HasRuns db
      → (c : IsOpened env input db o db')
      → HasRuns (after_opening env input c.context c.reason_code c.rule o.dispute db)
  unfolding count_evidence
  opened-HasRuns input db o db' h c = record { table = h.table; runs = runs }
    where
      runs :
          (d : Dispute)
          → In d (o.dispute ∷ db.disputes)
          → CaseRun (count_evidence d.id db) "CHARGEBACK_RECEIVED" d.status_code
      runs d (inl e) =
          let received : "CHARGEBACK_RECEIVED" ≡ d.status_code = sym (
            ap (λ (x : Dispute). x.status_code) e ∙ (opened-IsRowOf env input db o db' c).status) in
          subst (CaseRun (count_evidence d.id db) "CHARGEBACK_RECEIVED") received here
      runs d (inr i) = h.runs d i

  changed-HasRuns :
      (input : ChangeInput) (db : Db) (u : Dispute) (db' : Db)
      → HasRuns db
      → (c : IsChanged env input db u db') → HasRuns (after_change env input db c.current)
  unfolding count_evidence
  changed-HasRuns input db u db' h c = record { table = h.table; runs = runs }
    where
      step : Dispute → Dispute
      step d =
          if is_expected input.dispute_id c.current.status_code d
          then with_status env input.to_status (closes_at env input db) d
          else d

      accepted :
          assert_transition seeded_transitions
            (move_of input c.current)
            (count_evidence input.dispute_id db)
          ≡ ok c.row
      accepted =
          subst
            (λ ts.
              assert_transition ts (move_of input c.current) (count_evidence input.dispute_id db)
              ≡ ok c.row)
            h.table
            (assert_transition_of_found db.transitions (move_of input c.current) c.row _ c.allowed
              c.evidence)

      moved_run :
          (old : Dispute)
          → In old db.disputes
          → CaseRun (count_evidence (step old).id db) "CHARGEBACK_RECEIVED" (step old).status_code
      moved_run old i = elim (Bool-cases (is_expected input.dispute_id c.current.status_code old)) [
        | inl e ↦
            let same : old.id ≡ input.dispute_id = ground arith in
            let run = retarget (ap (λ id. count_evidence id db) same) refl (h.runs old i) in
            let status : (step old).status_code ≡ input.to_status = ground arith in
            let id : (step old).id ≡ input.dispute_id = ground arith in
            retarget (ap (λ id. count_evidence id db) (sym id)) (sym status)
              (move (move_of input c.current) c.row run accepted (ground arith) refl)
        | inr e ↦
            let same : step old ≡ old = rw e in
            retarget (ap (λ (x : Dispute). count_evidence x.id db) (sym same))
              (ap (λ (x : Dispute). x.status_code) (sym same)) (h.runs old i)
      ]

      runs :
          (d : Dispute)
          → In d (
              replace
                (is_expected input.dispute_id c.current.status_code)
                (with_status env input.to_status (closes_at env input db))
                db.disputes)
          → CaseRun (count_evidence d.id db) "CHARGEBACK_RECEIVED" d.status_code
      runs d i =
          let (old, j, e) = of_In-map step db.disputes d i in
          subst
            (λ (x : Dispute). CaseRun (count_evidence x.id db) "CHARGEBACK_RECEIVED" x.status_code)
            (sym e) (moved_run old j)

  added-HasRuns :
      (input : NewEvidence) (db : Db) (item : Evidence) (db' : Db)
      → HasRuns db
      → IsAdded env input db item db'
      → HasRuns (after_evidence env input db item)
  unfolding count_evidence
  added-HasRuns input db item db' h c = record {
    table = h.table;
    runs = λ d i. CaseRun_mono _ (ground arith) (h.runs d i);
  }

HasRuns-IsPreserved : IsPreserved HasRuns
unfolding count_evidence
HasRuns-IsPreserved = record {
  same = HasRuns-of_same;
  delivered = λ db ds h. record { table = h.table; runs = h.runs };
  opened = opened-HasRuns;
  changed = changed-HasRuns;
  added = added-HasRuns;
}

won_run : {n : ℕ} (k : ℕ) → n ≡ k → CaseRun n "CHARGEBACK_RECEIVED" "WON" → 1 ≤ k
won_run zero e r =
    absurd (run_without_evidence (subst (λ n. CaseRun n "CHARGEBACK_RECEIVED" "WON") e r) refl)
won_run (suc k) e r = omega arith

-- Over the seeded table, from a state such as the empty one in which every case has come by accepted
-- moves: whatever calls are made, a dispute that is WON has evidence on file.
pub Reach-won :
    {s t : Db}
    → Reach s t
    → HasRuns s
    → (d : Dispute) → In d t.disputes
    → d.status_code ≡ "WON"
    → 1 ≤ count_evidence d.id t
Reach-won {s} {t} r h d i e =
    won_run (count_evidence d.id t) refl
      (retarget refl e ((Reach_keeps HasRuns HasRuns-IsPreserved r h).runs d i))

-- Over the seeded table, from a state in which every case has come by accepted moves: whatever calls
-- are made, no dispute is ever WITHDRAWN, although a webhook event asks for that status.
pub Reach-withdrawn :
    {s t : Db}
    → Reach s t
    → HasRuns s
    → (d : Dispute) → In d t.disputes
    → d.status_code ≢ "WITHDRAWN"
Reach-withdrawn {s} {t} r h d i =
    run_never_withdrawn _ ((Reach_keeps HasRuns HasRuns-IsPreserved r h).runs d i)
