-- ===== src/Deadlines.antt =====
-- src/domain/deadlines.js: which response window applies, and where the clock stands in it.
--
-- A time is a number of milliseconds from the earliest Date that JavaScript can represent
-- (-8.64e15 ms from the epoch), so every valid Date is a natural number up to `max_time`, and
-- differences and orders of times are those of the source.
pub mod Selection
pub mod Clock
use chargeback_iq.Prelude.{
  ℕ, suc, ◌+◌, ◌-◌, ◌*◌, String, Option, none, some, Bool, true, false, not, ◌&&◌, ◌||◌, List, [],
  ◌∷◌, if◌then◌else◌, ◌==◌, leb, ltb,
}
use chargeback_iq.Prelude.Int.{ℤ, pos, negsuc, floor_div}
use chargeback_iq.Errors.{Result, ok, err, app, validation_error, no_details}

abbrev pub ms_per_day : ℕ
ms_per_day = 24 * 60 * 60 * 1000

-- A row of `deadline_rules`, as `listDeadlineRules` reads it.
pub record DeadlineRule : Type 0 where
  pub network_code : String
  pub stage : String
  pub region : String
  pub processor_code : Option String
  pub response_days : ℕ
  pub warn_days_before : ℕ

-- The second argument of `selectDeadlineRule`.
pub record Query : Type 0 where
  pub network_code : String
  pub stage : String
  pub region : String
  pub processor_code : Option String

-- `===` between two nullable texts.
abbrev pub same_code : Option String → Option String → Bool
same_code none none = true
same_code none (some b) = false
same_code (some a) none = false
same_code (some a) (some b) = a == b

abbrev pub is_null : Option String → Bool
is_null none = true
is_null (some a) = false

-- The four `continue` tests of the loop: the rule is a candidate.
unfoldable pub is_candidate : Query → DeadlineRule → Bool
is_candidate q r =
    r.network_code == q.network_code
    && (r.stage == q.stage
        && ((r.region == q.region || r.region == "DEFAULT")
            && (same_code r.processor_code q.processor_code || is_null r.processor_code)))

unfoldable pub score : Query → DeadlineRule → ℕ
score q r =
    (if r.region == q.region then 2 else 0)
    + (if same_code r.processor_code q.processor_code && not (is_null r.processor_code)
        then 1
        else 0)

-- `best` with `bestScore`; `none` is null with -1.
abbrev pub Best : Type 0
Best = Option (DeadlineRule × ℕ)

-- `score > bestScore`
abbrev pub beats : ℕ → Best → Bool
beats s none = true
beats s (some (r, t)) = ltb t s

abbrev pub consider : Query → Best → DeadlineRule → Best
consider q best r = if is_candidate q r && beats (score q r) best then some (r, score q r) else best

unfoldable pub select_from : Query → Best → List DeadlineRule → Best
select_from q best [] = best
select_from q best (r ∷ rs) = select_from q (consider q best r) rs

abbrev pub rule_of : Best → Option DeadlineRule
rule_of none = none
rule_of (some (r, s)) = some r

unfoldable pub select_deadline_rule : List DeadlineRule → Query → Option DeadlineRule
unfolding select_from
select_deadline_rule rules q = rule_of (select_from q none rules)

-- A JavaScript value where the source wants a Date or a whole number.
pub data JsValue : Type 0 where
  date : ℕ → JsValue
  invalid_date : JsValue
  whole : ℤ → JsValue
  other : JsValue

-- A Date object: a time, or Invalid Date.
pub data Date : Type 0 where
  at : ℕ → Date
  invalid : Date

-- The latest time that a Date holds, 8.64e15 ms after the epoch.
abbrev pub max_time : ℕ
max_time = 17_280_000_000_000_000

-- `new Date(t)` at a time that is not before the first one.
abbrev pub make_date : ℕ → Date
make_date t = if leb t max_time then at t else invalid

-- The second guard of `computeRespondBy`, and its result.
unfoldable pub respond_within : ℕ → JsValue → Result Date
respond_within t (whole (pos (suc n))) = ok (make_date (t + suc n * ms_per_day))
respond_within t _ =
    err (app (validation_error "responseDays must be a positive whole number." no_details))

unfoldable pub compute_respond_by : JsValue → JsValue → Result Date
unfolding respond_within
compute_respond_by (date t) response_days = respond_within t response_days
compute_respond_by _ response_days =
    err (app (validation_error "receivedAt must be a valid Date." no_details))

unfoldable pub days_remaining : (now respond_by : ℕ) → ℤ
unfolding floor_div
days_remaining now respond_by = floor_div respond_by now ms_per_day

-- The traffic light: EXPIRED, WARNING or OK.
pub data DeadlineState : Type 0 where
  expired warning okay : DeadlineState

-- `warningStarts` may lie before the first time, so its days stand on the other side.
unfoldable pub deadline_state : (now respond_by warn_days_before : ℕ) → DeadlineState
deadline_state now respond_by warn_days_before =
    if leb respond_by now
    then expired
    else if leb respond_by (now + warn_days_before * ms_per_day)
    then warning
    else okay

-- `byDeadlineAscending`, on the two times; no other file calls it.
unfoldable pub by_deadline_ascending : (a b : ℕ) → ℤ
by_deadline_ascending a b = if leb b a then pos (a - b) else negsuc (b - a - 1)
