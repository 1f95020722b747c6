-- ===== src/Services/Evidence.antt =====
-- src/services/disputeService.js: `addEvidence`.
pub mod Laws
use chargeback_iq.Prelude.{
  String, Option, none, some, Bool, true, false, List, [], ◌∷◌, ◌==◌, if◌then◌else◌,
}
use chargeback_iq.Errors.{validation_error, no_details}
use chargeback_iq.Schema.{Db, Env, Evidence, text}
use chargeback_iq.Tx.{
  M, Outcome, returned, threw, ◌>>=◌, ◌>>◌, pure, reads, or_throw, throw_if, with_transaction,
}
use chargeback_iq.Repositories.Disputes.{
  NewEvidence, NewEvent, find_dispute_by_id, DisputeDetails, insert_evidence, append_event,
}
use chargeback_iq.Services.DisputeService.{dispute_not_found}

-- `collectedBy ? 'OPERATOR' : 'SYSTEM'`: the empty text is falsy.
abbrev pub collector : Option String → String
collector none = "SYSTEM"
collector (some id) = if id == "" then "SYSTEM" else "OPERATOR"

-- The event that records the item.
abbrev pub evidence_event : NewEvidence → (evidence_id : String) → NewEvent
evidence_event input evidence_id = record {
  dispute_id = input.dispute_id;
  event_type = "EVIDENCE_ADDED";
  from_status = none;
  to_status = none;
  actor_type = collector input.collected_by;
  actor_id = input.collected_by;
  note = input.description;
  payload = ("kindCode", text input.kind_code) ∷ ("evidenceId", text evidence_id) ∷ [];
}

module _ (env : Env) (input : NewEvidence) where
  unfoldable pub write_evidence : M Evidence
  write_evidence = do
    item ← insert_evidence env input
    append_event env (evidence_event input item.id)
    pure item

  unfoldable pub add_body : M Evidence
  add_body = do
    found ← reads (find_dispute_by_id input.dispute_id)
    dispute ← or_throw found (dispute_not_found input.dispute_id)
    throw_if dispute.is_terminal
        (validation_error "Cannot attach evidence to a closed dispute." no_details)
    write_evidence

  unfoldable pub add_evidence : M Evidence
  add_evidence = with_transaction add_body
