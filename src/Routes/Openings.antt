-- ===== src/Routes/Openings.antt =====
-- The requests to open a dispute, and the constraints of the table that they meet.
use chargeback_iq.Prelude.{
  ℕ, zero, suc, ◌<◌, String, none, some, Option, Bool, true, ◌&&◌, ◌≡◌, refl, subst, arith,
  or_default, leb, dec_text,
}
use chargeback_iq.Prelude.Int.{pos}
use chargeback_iq.Errors.{ok}
use chargeback_iq.Deadlines.{Date, at, invalid, date, whole, compute_respond_by, respond_within}
use chargeback_iq.Schema.{Env, Dispute, ReasonCode}
use chargeback_iq.Repositories.Transactions.{Context}
use chargeback_iq.Repositories.Disputes.{
  dispute_row, passes_checks, is_root_cause, is_positive, is_nonnegative,
}
use chargeback_iq.Services.DisputeService.{opened_row}
use chargeback_iq.Routes.Disputes.{OpenBody, open_input, meets_open_schema, absent_or}

default_passes :
    {A : Type 0} (p : A → Bool) (o : Option A) (x : A)
    → absent_or p o ≡ true
    → p x ≡ true
    → p (or_default o x) ≡ true
default_passes p none x h k = k
default_passes p (some a) x h k = h

ok_value : {A : Type 0} {a b : A} → ok a ≡ ok b → a ≡ b
ok_value h = cc

undetermined : is_root_cause "UNDETERMINED" ≡ true
unfolding dec_text
undetermined = refl

later_date :
    (t days : ℕ) (end : ℕ) → compute_respond_by (date t) (whole (pos days)) ≡ ok (at end) → t < end
unfolding compute_respond_by respond_within
later_date t zero end h = cc
later_date t (suc n) end h = ground arith

-- A body that openDisputeSchema accepts never violates a CHECK constraint of `disputes`: with the
-- deadline that computeRespondBy has returned, for a payment whose amount is positive, the row that
-- openDispute inserts passes them all.
pub accepted_body_passes :
    (env : Env) (b : OpenBody) (context : Context) (rc : ReasonCode) (received days : ℕ)
    (respond_by : Date) (id : String) (d : Dispute)
    → meets_open_schema b ≡ true
    → is_positive context.amount_minor ≡ true
    → compute_respond_by (date received) (whole (pos days)) ≡ ok respond_by
    → dispute_row env id
        (opened_row env (open_input b) context rc (at received) respond_by)
        respond_by
      ≡ ok d
    → passes_checks d ≡ true
unfolding passes_checks meets_open_schema
accepted_body_passes env b context rc received days invalid id d meets positive due row = cc
accepted_body_passes env b context rc received days (at end) id d meets positive due row =
    let amount =
      default_passes is_positive b.disputed_amount_minor context.amount_minor (ground arith)
        positive in
    let fee = default_passes is_nonnegative b.dispute_fee_minor (pos 0) (ground arith) refl in
    let cause =
      default_passes is_root_cause b.root_cause "UNDETERMINED" (ground arith) undetermined in
    let cycle = default_passes (λ (n : ℕ). leb 1 n && leb n 3) b.cycle 1 (ground arith) refl in
    let later = later_date received days end due in
    subst (λ (x : Dispute). passes_checks x ≡ true) (ok_value row)
      (ground (arith, amount, fee, cause, cycle, later))
