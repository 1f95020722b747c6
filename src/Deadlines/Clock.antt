-- ===== src/Deadlines/Clock.antt =====
-- The response window on the clock: its end, the whole days left and the traffic light.
use chargeback_iq.Prelude.{ℕ, suc, ◌+◌, ◌*◌, ◌≤◌, ◌<◌, ◌≡◌, refl, ◌↔◌, arith, ap, zero}
use chargeback_iq.Prelude.Int.{ℤ, pos, negsuc, ◌≤ℤ◌}
use chargeback_iq.Errors.{ok}
use chargeback_iq.Deadlines.{
  JsValue, date, whole, Date, at, max_time, ms_per_day, compute_respond_by, days_remaining,
  deadline_state, make_date, expired, warning, okay,
}

-- `d` is the floor of (respondBy - now) / MS_PER_DAY.
abbrev pub IsFloor : (now respond_by : ℕ) → ℤ → Type 0
IsFloor now respond_by (pos d) =
    (now + d * ms_per_day ≤ respond_by) × (respond_by < now + (d + 1) * ms_per_day)
IsFloor now respond_by (negsuc d) =
    (now ≤ respond_by + (d + 1) * ms_per_day) × (respond_by + d * ms_per_day < now)

pub days_remaining-IsFloor :
    (now respond_by : ℕ) → IsFloor now respond_by (days_remaining now respond_by)
unfolding days_remaining
days_remaining-IsFloor now respond_by = ground arith

IsFloor-unique :
    (now respond_by : ℕ) (d e : ℤ) → IsFloor now respond_by d → IsFloor now respond_by e → d ≡ e
IsFloor-unique now respond_by (pos d) (pos e) h k = ap pos (omega arith)
IsFloor-unique now respond_by (pos d) (negsuc e) h k = absurd (omega arith)
IsFloor-unique now respond_by (negsuc d) (pos e) h k = absurd (omega arith)
IsFloor-unique now respond_by (negsuc d) (negsuc e) h k = ap negsuc (omega arith)

-- The light is EXPIRED exactly from the deadline on, WARNING exactly in the warning window before it,
-- and OK exactly before that window.
pub deadline_state_lem :
    (now respond_by warn : ℕ)
    → ((deadline_state now respond_by warn ≡ expired) ↔ (respond_by ≤ now))
      × ((deadline_state now respond_by warn ≡ warning)
          ↔ ((now < respond_by) × (respond_by ≤ now + warn * ms_per_day)))
      × ((deadline_state now respond_by warn ≡ okay) ↔ (now + warn * ms_per_day < respond_by))
unfolding deadline_state
deadline_state_lem now respond_by warn = ground arith

-- `daysRemaining` is the floor of the days left, and it agrees with the light: a negative count means
-- EXPIRED, EXPIRED means a count of at most 0, and OK means at least the days of the warning window.
pub days_remaining_lem :
    (now respond_by warn : ℕ)
    → IsFloor now respond_by (days_remaining now respond_by)
      × (days_remaining now respond_by ≤ℤ negsuc 0 → deadline_state now respond_by warn ≡ expired)
      × (deadline_state now respond_by warn ≡ expired → days_remaining now respond_by ≤ℤ pos 0)
      × (deadline_state now respond_by warn ≡ okay → pos warn ≤ℤ days_remaining now respond_by)
days_remaining_lem now respond_by warn =
    let (red, amber, green) = deadline_state_lem now respond_by warn in
    let f = days_remaining-IsFloor now respond_by in
    (f, λ h. red.1 (below _ f h), λ h. above _ f (red.0 h), λ h. left _ f (green.0 h))
  where
    below : (d : ℤ) → IsFloor now respond_by d → d ≤ℤ negsuc 0 → respond_by ≤ now
    below (pos d) f h = absurd (omega arith)
    below (negsuc d) f h = omega arith

    above : (d : ℤ) → IsFloor now respond_by d → respond_by ≤ now → d ≤ℤ pos 0
    above (pos d) f h = omega arith
    above (negsuc d) f h = omega arith

    left : (d : ℤ) → IsFloor now respond_by d → now + warn * ms_per_day < respond_by → pos warn ≤ℤ d
    left (pos d) f h = omega arith
    left (negsuc d) f h = absurd (omega arith)

-- What `computeRespondBy` wants: a valid Date and a positive whole number of days; its result.
pub record IsWindow (a b : JsValue) (d : Date) : Type 0 where
  pub received : ℕ
  pub days : ℕ
  pub is_date : a ≡ date received
  pub is_whole : b ≡ whole (pos days)
  pub positive : 1 ≤ days
  pub end : d ≡ make_date (received + days * ms_per_day)

window_end :
    (t n : ℕ)
    → 1 ≤ n
    → compute_respond_by (date t) (whole (pos n)) ≡ ok (make_date (t + n * ms_per_day))
unfolding compute_respond_by
window_end t zero h = elim h [ ]
window_end t (suc n) h = refl

IsWindow-of : (a b : JsValue) (d : Date) → compute_respond_by a b ≡ ok d → IsWindow a b d
unfolding compute_respond_by
IsWindow-of (date t) (whole (pos (suc n))) d h = record {
  received = t;
  days = suc n;
  is_date = refl;
  is_whole = refl;
  positive = omega arith;
  end = cc;
}
IsWindow-of _ _ d h = cc

-- `computeRespondBy` returns exactly on a valid Date and a positive whole number of days, and its
-- result is the Date that many days later (Invalid Date past the end of time).
pub compute_respond_by_iff :
    (a b : JsValue) (d : Date) → (compute_respond_by a b ≡ ok d) ↔ IsWindow a b d
compute_respond_by_iff a b d = (
  IsWindow-of a b d,
  λ w. rw (w.is_date, w.is_whole, w.end) (window_end w.received w.days w.positive),
)

-- The window round trip: at the receipt of a case exactly the days of its rule remain, and the
-- deadline lies after the receipt and not past the last Date.
pub compute_respond_by_days :
    (t n u : ℕ)
    → compute_respond_by (date t) (whole (pos n)) ≡ ok (at u)
    → (t < u) × (u ≤ max_time) × (days_remaining t u ≡ pos n)
unfolding compute_respond_by
compute_respond_by_days t (suc n) u h =
    let e : u ≡ t + suc n * ms_per_day = ground arith in
    (
      ground arith,
      ground arith,
      IsFloor-unique t u (days_remaining t u) (pos (suc n)) (days_remaining-IsFloor t u)
          (omega arith),
    )
compute_respond_by_days t zero u h = absurd (cc)
