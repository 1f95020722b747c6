-- ===== src/Ratios.antt =====
-- src/domain/ratios.js: the monitoring-programme ratios, in basis points.
--
-- The counts are natural numbers, as every caller passes them. The one floating-point result,
-- `Math.round((numerator / denominator) * 10000)`, is the parameter `Rounding`.
pub mod Ecp
pub mod Vamp
use chargeback_iq.Prelude.{
  ℕ, ◌+◌, ◌*◌, ◌≤◌, ◌<◌, String, Option, none, some, Bool, true, false, ◌&&◌, if◌then◌else◌, ◌==◌,
  leb, ltb, nat_eq,
}
use chargeback_iq.Prelude.Int.{ℤ, pos, negsuc}
use chargeback_iq.Objects.{is_inherited}
use chargeback_iq.Errors.{Result, ok, err, app, validation_error, no_details}

-- `Math.round((n / d) * 10000)` in double precision. Division and multiplication round correctly, so
-- the result does not fall when n grows; and while n has at most 32 bits their relative error is too
-- small to carry the product across a half that the exact quotient does not reach, so the result is
-- within one half of the exact quotient.
pub record Rounding : Type 0 where
  pub bps : ℕ → ℕ → ℕ
  pub not_above : (n d : ℕ) → 0 < d → n < 4294967296 → 2 * (d * bps n d) ≤ 20000 * n + d
  pub not_below : (n d : ℕ) → 0 < d → n < 4294967296 → 20000 * n ≤ 2 * (d * bps n d) + d
  pub monotone : (m n d : ℕ) → 0 < d → m ≤ n → bps m d ≤ bps n d

-- A JavaScript number that is whole, or not finite.
pub data Number : Type 0 where
  whole : ℤ → Number
  not_finite : Number

module _ (r : Rounding) where
  unfoldable pub divide : ℕ → ℕ → Option ℕ
  divide n d = if nat_eq d 0 then none else some (r.bps n d)

  unfoldable pub to_basis_points : Number → Number → Result (Option ℕ)
  unfolding divide
  to_basis_points (whole (pos n)) (whole (pos d)) = ok (divide n d)
  to_basis_points (whole (pos n)) _ =
      err (app (validation_error "denominator must be a non-negative number." no_details))
  to_basis_points _ _ =
      err (app (validation_error "numerator must be a non-negative number." no_details))

-- `bps / 100`, kept as the number of hundredths.
pub record Percent : Type 0 where
  pub hundredths : ℕ

unfoldable pub bps_to_percent : Option ℕ → Option Percent
bps_to_percent none = none
bps_to_percent (some bps) = some (record { hundredths = bps })

pub data Tier : Type 0 where
  not_assessable hecm ecm compliant below_floor excessive : Tier

-- The text of `reason`, by its template and the values in it.
pub data Reason : Type 0 where
  no_prior_transactions : Reason
  meets_hecm : (chargebacks : ℕ) → Option Percent → Reason
  meets_ecm : (chargebacks : ℕ) → Option Percent → Reason
  count_below_100 : Reason
  ratio_below_150 : Reason
  no_card_absent_transactions : Reason
  under_floor : (events : ℕ) → Reason
  at_or_above : Option Percent → (region : String) → Reason
  below_line : Option Percent → (region : String) → Reason

pub record Threshold : Type 0 where
  pub min_count : ℕ
  pub min_bps : ℕ

-- `ECP_THRESHOLDS`
abbrev pub ecm_threshold : Threshold
ecm_threshold = record { min_count = 100; min_bps = 150 }

abbrev pub hecm_threshold : Threshold
hecm_threshold = record { min_count = 300; min_bps = 300 }

pub record EcpResult : Type 0 where
  pub tier : Tier
  pub bps : Option ℕ
  pub percent : Option Percent
  pub reason : Reason

abbrev pub meets : Threshold → ℕ → ℕ → Bool
meets t count bps = leb t.min_count count && leb t.min_bps bps

-- The ladder of `evaluateEcp` below the null test.
unfoldable pub ecp_tier : ℕ → ℕ → EcpResult
unfolding bps_to_percent
ecp_tier chargebacks bps =
    let percent = bps_to_percent (some bps) in
    if meets hecm_threshold chargebacks bps
    then record {
      tier = hecm;
      bps = some bps;
      percent = percent;
      reason = meets_hecm chargebacks percent;
    }
    else if meets ecm_threshold chargebacks bps
    then record {
      tier = ecm;
      bps = some bps;
      percent = percent;
      reason = meets_ecm chargebacks percent;
    }
    else record {
      tier = compliant;
      bps = some bps;
      percent = percent;
      reason = if ltb chargebacks 100 then count_below_100 else ratio_below_150;
    }

abbrev pub ecp_result : ℕ → Option ℕ → EcpResult
ecp_result chargebacks none = record {
  tier = not_assessable;
  bps = none;
  percent = none;
  reason = no_prior_transactions;
}
ecp_result chargebacks (some bps) = ecp_tier chargebacks bps

-- A call that may throw, followed by a computation on its value.
abbrev pub map_ok {ℓ κ} : {A : Type ℓ} {B : Type κ} → (A → B) → Result A → Result B
map_ok f (ok a) = ok (f a)
map_ok f (err e) = err e

unfoldable pub evaluate_ecp :
    Rounding → (chargeback_count prior_month_transaction_count : ℕ) → Result EcpResult
unfolding to_basis_points ecp_tier
evaluate_ecp r chargebacks prior =
    map_ok (ecp_result chargebacks)
      (to_basis_points r (whole (pos chargebacks)) (whole (pos prior)))

-- `VAMP_MERCHANT_BPS[region] ?? VAMP_MERCHANT_BPS.DEFAULT`: a line, or a function that the object
-- inherits, to which no number compares.
pub data Line : Type 0 where
  line : ℕ → Line
  no_number : Line

unfoldable pub vamp_merchant_bps : String → Line
vamp_merchant_bps region =
    if region == "CEMEA" then line 220 else if is_inherited region then no_number else line 150

-- `bps >= thresholdBps`
abbrev pub reaches : ℕ → Line → Bool
reaches bps (line t) = leb t bps
reaches bps no_number = false

abbrev pub vamp_event_floor : ℕ
vamp_event_floor = 1500

pub record VampResult : Type 0 where
  pub tier : Tier
  pub bps : Option ℕ
  pub percent : Option Percent
  pub events : ℕ
  pub threshold_bps : Line
  pub reason : Reason

-- The ladder of `evaluateVamp` below the null test.
unfoldable pub vamp_tier : ℕ → String → ℕ → VampResult
unfolding bps_to_percent vamp_merchant_bps
vamp_tier events region bps =
    let percent = bps_to_percent (some bps) in
    let threshold = vamp_merchant_bps region in
    if ltb events vamp_event_floor
    then record {
      tier = below_floor;
      bps = some bps;
      percent = percent;
      events = events;
      threshold_bps = threshold;
      reason = under_floor events;
    }
    else if reaches bps threshold
    then record {
      tier = excessive;
      bps = some bps;
      percent = percent;
      events = events;
      threshold_bps = threshold;
      reason = at_or_above percent region;
    }
    else record {
      tier = compliant;
      bps = some bps;
      percent = percent;
      events = events;
      threshold_bps = threshold;
      reason = below_line percent region;
    }

abbrev pub vamp_result : ℕ → String → Option ℕ → VampResult
vamp_result events region none = record {
  tier = not_assessable;
  bps = none;
  percent = none;
  events = events;
  threshold_bps = vamp_merchant_bps region;
  reason = no_card_absent_transactions;
}
vamp_result events region (some bps) = vamp_tier events region bps

unfoldable pub evaluate_vamp :
    Rounding
    → (fraud_report_count dispute_count card_absent_transaction_count : ℕ) → String
    → Result VampResult
unfolding to_basis_points vamp_tier
evaluate_vamp r frauds disputes card_absent region =
    let events = frauds + disputes in
    map_ok (vamp_result events region)
      (to_basis_points r (whole (pos events)) (whole (pos card_absent)))
