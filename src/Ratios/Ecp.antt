-- ===== src/Ratios/Ecp.antt =====
-- What `evaluateEcp` decides, by the rounded ratio and by the exact one.
use chargeback_iq.Prelude.{ℕ, ◌*◌, ◌≤◌, ◌<◌, Option, none, some, ◌≡◌, ◌↔◌, ◌⊎◌, arith, ap}
use chargeback_iq.Errors.{Result, ok, err}
use chargeback_iq.Ratios.{
  Rounding, EcpResult, Tier, not_assessable, hecm, ecm, compliant, ecp_tier, evaluate_ecp,
}

-- The tier that a call returns.
abbrev pub ecp_tier_of : Result EcpResult → Option Tier
ecp_tier_of (ok e) = some e.tier
ecp_tier_of (err x) = none

-- The conditions of the ladder on a count and a ratio in basis points.
abbrev pub EcpTiers : ℕ → ℕ → Option Tier → Type 0
EcpTiers c b tier =
    ((tier ≡ some hecm) ↔ ((300 ≤ c) × (300 ≤ b)))
    × ((tier ≡ some ecm) ↔ ((100 ≤ c) × (150 ≤ b) × ((c < 300) ⊎ (b < 300))))
    × ((tier ≡ some compliant) ↔ ((c < 100) ⊎ (b < 150)))

ecp_tier-EcpTiers : (c b : ℕ) → EcpTiers c b (some (ecp_tier c b).tier)
unfolding ecp_tier
ecp_tier-EcpTiers c b = ground arith

-- How bad a tier is.
abbrev pub severity : Option Tier → ℕ
severity none = 0
severity (some hecm) = 2
severity (some ecm) = 1
severity (some _) = 0

severity_mono :
    (c c' b b' : ℕ)
    → c ≤ c'
    → b ≤ b'
    → severity (some (ecp_tier c b).tier) ≤ severity (some (ecp_tier c' b').tier)
unfolding ecp_tier
severity_mono c c' b b' h k = ground arith

severity_iff : (c b : ℕ) → (1 ≤ severity (some (ecp_tier c b).tier)) ↔ ((100 ≤ c) × (150 ≤ b))
unfolding ecp_tier
severity_iff c b = ground arith

tier-eq-ecm : (c b : ℕ) → 100 ≤ c → 150 ≤ b → b < 300 → (ecp_tier c b).tier ≡ ecm
unfolding ecp_tier
tier-eq-ecm c b h k l = ground arith

module _ (r : Rounding) where
  -- With a denominator the ladder runs on the rounded ratio.
  evaluate_ecp-eq-ok : (c p : ℕ) → 0 < p → evaluate_ecp r c p ≡ ok (ecp_tier c (r.bps c p))
  unfolding evaluate_ecp
  evaluate_ecp-eq-ok c p h = ground arith

  not_assessable_iff :
      (c p : ℕ) → (p ≡ 0) ↔ (ecp_tier_of (evaluate_ecp r c p) ≡ some not_assessable)
  unfolding evaluate_ecp ecp_tier
  not_assessable_iff c p = (λ h. ground arith, λ h. ground arith)

  -- `evaluateEcp` never throws on counts. With no transactions in the prior month the merchant is not
  -- assessable; otherwise HECM needs 300 chargebacks and 300 bps, ECM 100 and 150 without both of
  -- those, and COMPLIANT is what falls below either ECM condition.
  pub evaluate_ecp_tiers :
      (c p : ℕ)
      → ((p ≡ 0) ↔ (ecp_tier_of (evaluate_ecp r c p) ≡ some not_assessable))
        × (0 < p → EcpTiers c (r.bps c p) (ecp_tier_of (evaluate_ecp r c p)))
  evaluate_ecp_tiers c p =
      (not_assessable_iff c p, λ h. rw (evaluate_ecp-eq-ok c p h) (ecp_tier-EcpTiers c (r.bps c p)))

  -- Over the same prior month, more chargebacks never lead to a milder tier.
  pub evaluate_ecp_monotone :
      (c c' p : ℕ)
      → 0 < p
      → c ≤ c'
      → severity (ecp_tier_of (evaluate_ecp r c p)) ≤ severity (ecp_tier_of (evaluate_ecp r c' p))
  evaluate_ecp_monotone c c' p h k =
      rw (evaluate_ecp-eq-ok c p h, evaluate_ecp-eq-ok c' p h)
        (severity_mono c c' (r.bps c p) (r.bps c' p) k (r.monotone c c' p h k))

  line_reached : (c p : ℕ) → 0 < p → c < 4294967296 → 299 * p < 20000 * c → 150 ≤ r.bps c p
  line_reached c p h k l = grind (arith, r.not_below c p h k)

  line_needed : (c p : ℕ) → 0 < p → c < 4294967296 → 150 ≤ r.bps c p → 299 * p ≤ 20000 * c
  line_needed c p h k l = grind (arith, r.not_above c p h k)

  below_300 : (c p : ℕ) → 0 < p → c < 4294967296 → 10000 * c < 150 * p → r.bps c p < 300
  below_300 c p h k l = grind (arith, r.not_above c p h k)

  -- Every merchant with 100 chargebacks at an exact ratio of 1.50% or more is in the programme, and
  -- every merchant in the programme has 100 chargebacks at an exact ratio of 1.495% or more.
  pub evaluate_ecp_exact :
      (c p : ℕ)
      → 0 < p
      → c < 4294967296
      → (100 ≤ c → 150 * p ≤ 10000 * c → 1 ≤ severity (ecp_tier_of (evaluate_ecp r c p)))
        × (1 ≤ severity (ecp_tier_of (evaluate_ecp r c p)) → (100 ≤ c) × (299 * p ≤ 20000 * c))
  evaluate_ecp_exact c p h k = rw (evaluate_ecp-eq-ok c p h) (
    λ l m. (severity_iff c (r.bps c p)).1 (l, line_reached c p h k (omega arith)),
    λ s. let (l, m) = (severity_iff c (r.bps c p)).0 s in (l, line_needed c p h k m),
  )

  -- A ratio strictly between 1.495% and 1.50% is rounded up to the line: with 100 chargebacks the
  -- merchant is put in the programme although the ratio is below 1.50%.
  pub evaluate_ecp_rounds_up :
      (c p : ℕ)
      → 0 < p
      → 100 ≤ c
      → c < 4294967296
      → 299 * p < 20000 * c
      → 10000 * c < 150 * p
      → ecp_tier_of (evaluate_ecp r c p) ≡ some ecm
  evaluate_ecp_rounds_up c p h n k low high =
      rw (evaluate_ecp-eq-ok c p h)
        (ap some (tier-eq-ecm c (r.bps c p) n (line_reached c p h k low) (below_300 c p h k high)))
