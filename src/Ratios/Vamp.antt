-- ===== src/Ratios/Vamp.antt =====
-- What `evaluateVamp` decides, by the floor of events and the line of the region.
use chargeback_iq.Prelude.{
  ℕ, ◌+◌, ◌≤◌, ◌<◌, String, Option, none, some, true, false, ◌≡◌, refl, ◌↔◌, arith, ◌==◌, dec_text,
}
use chargeback_iq.Objects.{is_inherited}
use chargeback_iq.Errors.{Result, ok, err}
use chargeback_iq.Ratios.{
  Rounding, VampResult, Tier, not_assessable, compliant, below_floor, excessive, vamp_tier,
  evaluate_vamp, line, no_number, vamp_merchant_bps, vamp_event_floor,
}

abbrev pub vamp_tier_of : Result VampResult → Option Tier
vamp_tier_of (ok e) = some e.tier
vamp_tier_of (err x) = none

-- The conditions of the ladder on the events, the line of the region and the ratio.
abbrev pub VampTiers : (events line bps : ℕ) → Option Tier → Type 0
VampTiers e t b tier =
    ((tier ≡ some below_floor) ↔ (e < vamp_event_floor))
    × ((tier ≡ some excessive) ↔ ((vamp_event_floor ≤ e) × (t ≤ b)))
    × ((tier ≡ some compliant) ↔ ((vamp_event_floor ≤ e) × (b < t)))

vamp_tier-VampTiers :
    (e : ℕ) (region : String) (t b : ℕ)
    → vamp_merchant_bps region ≡ line t
    → VampTiers e t b (some (vamp_tier e region b).tier)
unfolding vamp_tier
vamp_tier-VampTiers e region t b h = ground arith

-- The line of a region that names no inherited property: 2.20% in CEMEA, 1.50% elsewhere.
abbrev pub line_of : String → ℕ
line_of region = elim (region == "CEMEA") [ true ↦ 220 | false ↦ 150 ]

pub vamp_merchant_bps-eq-line :
    (region : String)
    → is_inherited region ≡ false
    → vamp_merchant_bps region ≡ line (line_of region)
unfolding vamp_merchant_bps
vamp_merchant_bps-eq-line region h = ground arith

cemea_is_own : is_inherited "CEMEA" ≡ false
unfolding is_inherited dec_text
cemea_is_own = refl

vamp_merchant_bps-eq-no_number :
    (region : String) → is_inherited region ≡ true → vamp_merchant_bps region ≡ no_number
unfolding vamp_merchant_bps
vamp_merchant_bps-eq-no_number region h = ground (arith, cemea_is_own)

module _ (r : Rounding) (frauds disputes absent : ℕ) (region : String) where
  evaluate_vamp-eq-ok :
      0 < absent
      → evaluate_vamp r frauds disputes absent region
        ≡ ok (vamp_tier (frauds + disputes) region (r.bps (frauds + disputes) absent))
  unfolding evaluate_vamp
  evaluate_vamp-eq-ok h = ground arith

  vamp-not_assessable_iff :
      (absent ≡ 0)
      ↔ (vamp_tier_of (evaluate_vamp r frauds disputes absent region) ≡ some not_assessable)
  unfolding evaluate_vamp vamp_tier
  vamp-not_assessable_iff = (λ h. ground arith, λ h. ground arith)

  -- `evaluateVamp` never throws on counts. With no card-absent transactions the merchant is not
  -- assessable. Otherwise, in a region that names no inherited property, fraud reports and disputes
  -- together below 1500 are below the floor, and above it the merchant is excessive exactly when the
  -- rounded ratio of their sum reaches the line of the region, 220 bps in CEMEA and 150 elsewhere.
  pub evaluate_vamp_tiers :
      is_inherited region ≡ false
      → ((absent ≡ 0)
          ↔ (vamp_tier_of (evaluate_vamp r frauds disputes absent region) ≡ some not_assessable))
        × (0 < absent
            → VampTiers
                (frauds + disputes)
                (line_of region)
                (r.bps (frauds + disputes) absent)
                (vamp_tier_of (evaluate_vamp r frauds disputes absent region)))
  evaluate_vamp_tiers h = (
    vamp-not_assessable_iff,
    λ k. rw (evaluate_vamp-eq-ok k) (
        vamp_tier-VampTiers (frauds + disputes) region (line_of region)
          (r.bps (frauds + disputes) absent) (vamp_merchant_bps-eq-line region h)),
  )

  -- A region that names an inherited property has no line: the merchant is never excessive there.
  pub evaluate_vamp_inherited :
      is_inherited region ≡ true
      → ¬ (vamp_tier_of (evaluate_vamp r frauds disputes absent region) ≡ some excessive)
  unfolding evaluate_vamp vamp_tier
  evaluate_vamp_inherited h k = ground (arith, vamp_merchant_bps-eq-no_number region h)
