-- ===== src/Services/Sweep/Fresh.antt =====
-- One case of the sweep that may expire, while ids are fresh.

use chargeback_iq.Prelude.{
  ℕ, suc, ◌≤◌, ◌<◌, some, true, false, List, [], ◌∷◌, ◌≡◌, refl, sym, ap, ◌∙◌, arith, inl, inr,
  ◌==◌, ==_refl, ==_ne, dec_text, find, any, In,
}
use chargeback_iq.Lifecycle.{Transition, find_transition}
use chargeback_iq.Lifecycle.Laws.{assert_transition_of_found}
use chargeback_iq.Schema.{Db, Env, Dispute, Event}
use chargeback_iq.Tx.{returned, rolled_back}
use chargeback_iq.Repositories.Disputes.{has_id, has_code, event_violation}
use chargeback_iq.Repositories.Disputes.Laws.{any-of_find}
use chargeback_iq.Services.DisputeService.{ChangeInput, change_status, move_of}
use chargeback_iq.Services.DisputeService.ChangeStatus.{after_change, with_moved, moved}
use chargeback_iq.Services.DisputeService.Outcomes.{change_allowed}
use chargeback_iq.Services.DisputeService.Rows.{any-after_change}
use chargeback_iq.Services.Sweep.{expiry_of}

-- The ids that `gen_random_uuid()` returns: all different, and those of the events are drawn already.
pub record HasFreshIds (env : Env) (db : Db) : Type 0 where
  pub different : (n m : ℕ) → env.random_uuid n ≡ env.random_uuid m → n ≡ m
  pub drawn : (e : Event) → In e db.events → (n : ℕ) × (n < db.drawn) × (e.id ≡ env.random_uuid n)

-- What makes a case of the sweep expire: its status and EXPIRED are in the table of statuses, and the
-- system may move it there without evidence.
pub record CanExpire (db : Db) (d : Dispute) : Type 0 where
  pub status : any (has_code d.status_code) db.statuses ≡ true
  pub target : any (has_code "EXPIRED") db.statuses ≡ true
  pub row : Transition
  pub found :
      find_transition db.transitions
        (record { from = d.status_code; to = "EXPIRED"; triggered_by = "SYSTEM" })
      ≡ some row
  pub free : row.requires_evidence ≡ false

pub fresh_id :
    (env : Env) (es : List Event) (k : ℕ)
    → ((n m : ℕ) → env.random_uuid n ≡ env.random_uuid m → n ≡ m)
    → ((e : Event) → In e es → (n : ℕ) × (n < k) × (e.id ≡ env.random_uuid n))
    → any (λ f. f.id == env.random_uuid k) es ≡ false
fresh_id env [] k different drawn = refl
fresh_id env (e ∷ es) k different drawn =
    let (n, less, same) = drawn e (inl refl) in
    let other : (e.id == env.random_uuid k) ≡ false =
      ==_ne e.id (env.random_uuid k) (λ p. absurd (omega (arith, different n k (sym same ∙ p)))) in
    ground (arith, fresh_id env es k different (λ x i. drawn x (inr i)))

system_is_no_operator : ("SYSTEM" == "OPERATOR") ≡ false
unfolding dec_text
system_is_no_operator = refl

module _ (env : Env) where
  -- Such a case is expired by a call of its own.
  pub expiry_returns :
      (s : Db) (d : Dispute)
      → HasFreshIds env s
      → CanExpire s d
      → find (has_id d.id) s.disputes ≡ some d
      → change_status env (expiry_of d) s
        ≡ returned (moved env (expiry_of d) s d) (after_change env (expiry_of d) s d)
  unfolding event_violation
  expiry_returns s d fresh can f =
      let there : any (has_id d.id) (with_moved env (expiry_of d) s d).disputes ≡ true =
        any-after_change env (expiry_of d) s d d.id ∙ any-of_find d.id s.disputes d f in
      let unused : any (λ e. e.id == env.random_uuid s.drawn) s.events ≡ false =
        fresh_id env s.events s.drawn fresh.different fresh.drawn in
      change_allowed env (expiry_of d) s d f can.row
        (assert_transition_of_found s.transitions (move_of (expiry_of d) d) can.row _ can.found
          (λ e. absurd (cc (e, can.free))))
        can.target
        (ground
          (arith, there, unused, can.status, can.target, system_is_no_operator, ==_refl "SYSTEM"))

  -- Ids stay fresh: a call that returned has written one event under the id that it drew.
  pub fresh_after_change :
      (input : ChangeInput) (s : Db) (d : Dispute)
      → HasFreshIds env s
      → HasFreshIds env (after_change env input s d)
  fresh_after_change input s d fresh = record { different = fresh.different; drawn = drawn }
    where
      drawn :
          (e : Event)
          → In e (after_change env input s d).events
          → (n : ℕ) × (n < suc s.drawn) × (e.id ≡ env.random_uuid n)
      drawn e (inl same) = (s.drawn, omega arith, ap (λ (x : Event). x.id) same)
      drawn e (inr i) = let (n, less, same) = fresh.drawn e i in (n, omega arith, same)

  pub fresh_after_rollback :
      (s after : Db)
      → s.drawn ≤ after.drawn
      → HasFreshIds env s
      → HasFreshIds env (rolled_back s after)
  unfolding rolled_back
  fresh_after_rollback s after more fresh = record {
    different = fresh.different;
    drawn = λ e i. let (n, less, same) = fresh.drawn e i in (n, omega arith, same);
  }
