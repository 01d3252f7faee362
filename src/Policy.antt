-- ===== src/Policy.antt =====
-- policy/v1/period.go: reset rules and billing periods. The time zone database
-- (`time.LoadLocation`) and SHA-256 are parameters.
mod Tests
mod Examples
pub mod Close
pub mod Interval
pub mod Elapsed
pub mod Covers
pub mod Steps
pub mod Current
use relayward_sdk.Base.{
  ℕ, zero, suc, ◌+◌, ◌-◌, ◌%◌, Bool, true, false, not, ◌&&◌, ◌||◌, List, [], ◌∷◌, ◌++◌, Option,
  none, some, Bytes, codes, beq, ltb, ◌==◌, take, is_some, if◌then◌else◌, Error, errorf, nil, text,
  error, Check, Result, ok, err, ◌>>◌, ◌>>=◌, pass, reject_if,
}
use relayward_sdk.Base.Int.{
  ℤ, pos, negsuc, pos_part, neg_part, ◌+ℤ◌, ◌-ℤ◌, ◌*ℤ◌, neg_ℤ, ltb_ℤ, eqb_ℤ, quot, rem,
}
use relayward_sdk.Regex.{Regex, times, match_string}
use relayward_sdk.Clock.{Location, utc_location, Time, is_zero, after, before, same_instant, utc}
use relayward_sdk.Clock.Calendar.{civil, weekday, date, add_days, day_number, format_utc}
use relayward_sdk.Encoding.{hex_encode}
use relayward_sdk.Protocol.{lower_hex}
use relayward_sdk.Agent.Validate.{uuid_pattern}

abbrev pub reset_never : Bytes
reset_never = codes "never"

abbrev pub reset_daily : Bytes
reset_daily = codes "daily"

abbrev pub reset_weekly : Bytes
reset_weekly = codes "weekly"

abbrev pub reset_monthly : Bytes
reset_monthly = codes "monthly"

abbrev pub reset_interval_days : Bytes
reset_interval_days = codes "interval_days"

abbrev pub identifier_pattern : Regex
identifier_pattern = uuid_pattern

-- ^[0-9a-f]{32}$
abbrev pub period_id_pattern : Regex
period_id_pattern = times 32 lower_hex

pub record ResetRule : Type 0 where
  pub kind : Bytes
  pub value : Option ℕ
  pub timezone : Bytes
  pub period_anchor : Option Time

pub record Period : Type 0 where
  pub id : Bytes
  pub starts_at : Time
  pub ends_at : Option Time

unfoldable pub validate_identifier : Bytes → Bytes → Check
validate_identifier field value =
    reject_if (not (match_string identifier_pattern value))
      (errorf "%s: invalid identifier" (text field nil))

-- `value == nil || *value < 1 || *value > maximum`
abbrev pub outside : ℕ → Option ℕ → Bool
outside maximum none = true
outside maximum (some n) = ltb n 1 || ltb maximum n

abbrev pub is_zero_time : Option Time → Bool
is_zero_time none = true
is_zero_time (some t) = is_zero t

-- The `switch` on the kind.
unfoldable pub check_kind : ResetRule → Check
check_kind value =
    if beq value.kind reset_never || beq value.kind reset_daily
    then reject_if (is_some value.value || is_some value.period_anchor)
        (errorf "%s reset must not include value or period_anchor" (text value.kind nil))
    else if beq value.kind reset_weekly
    then reject_if (outside 7 value.value || is_some value.period_anchor)
        (error "weekly reset value must be an ISO weekday from 1 to 7")
    else if beq value.kind reset_monthly
    then reject_if (outside 31 value.value || is_some value.period_anchor)
        (error "monthly reset value must be a day from 1 to 31")
    else if beq value.kind reset_interval_days
    then reject_if (outside 3650 value.value || is_zero_time value.period_anchor)
        (error "interval_days reset requires a 1 to 3650 day value and period_anchor")
    else err (errorf "kind: unsupported reset kind %q" (text value.kind nil))

abbrev pub LoadLocation : Type 0
LoadLocation = Bytes → Option Location

unfoldable pub validate_reset_rule : LoadLocation → ResetRule → Check
validate_reset_rule load_location value = do
  reject_if (beq value.timezone [] || beq value.timezone (codes "Local"))
      (error "timezone: must be UTC or an IANA timezone")
  reject_if (not (is_some (load_location value.timezone)))
      (error "timezone: must be UTC or an IANA timezone")
  check_kind value

-- `time.Date(…, 0, 0, 0, 0, location)` of a local day.
abbrev pub midnight : Time → Time
midnight local = let c = civil local in date c.year (pos c.month) (pos c.day) 0 0 local.location

unfoldable pub monthly_boundary : ℤ → ℤ → ℕ → Location → Time
monthly_boundary year month day location =
    let last_day = (civil (date year (month +ℤ pos 1) (pos 0) 0 0 location)).day in
    date year month (pos (if ltb last_day day then last_day else day)) 0 0 location

-- Go's `/` and `%` round to zero, so that the month can be 0 or less.
unfoldable pub adjacent_month : ℤ → ℤ → ℤ → ℤ × ℤ
adjacent_month year month delta =
    let index = year *ℤ pos 12 +ℤ month -ℤ pos 1 +ℤ delta in (quot index 12, rem index 12 +ℤ pos 1)

unfoldable pub civil_day : Time → ℤ
civil_day t = let c = civil t in day_number c.year c.month (pos c.day)

abbrev pub zero_time : Time
zero_time = record { nanos = pos 0; location = utc_location }

-- The cases of `CurrentPeriod` give the start and the end; a zero end stands for none.
abbrev pub Span : Type 0
Span = Time × Time

unfoldable pub daily_span : Time → Span
daily_span local = let start = midnight local in (start, add_days start (pos 1))

unfoldable pub weekly_span : ℕ → Time → Span
weekly_span value local =
    let iso_weekday = if weekday local == 0 then 7 else weekday local in
    let days_back = (iso_weekday + 7 - value) % 7 in
    let start = add_days (midnight local) (neg_ℤ (pos days_back)) in (start, add_days start (pos 7))

unfoldable pub monthly_span : ℕ → Time → Span
monthly_span value local =
    let c = civil local in
    let first = monthly_boundary c.year (pos c.month) value local.location in
    let (year, month) =
      if after first local
      then adjacent_month c.year (pos c.month) (negsuc 0)
      else (c.year, (pos c.month)) in
    let start =
      if after first local then monthly_boundary year month value local.location else first in
    let (next_year, next_month) = adjacent_month year month (pos 1) in
    (start, monthly_boundary next_year next_month value local.location)

-- `for start.After(local)`, on fuel; `none` means that the fuel ran out.
unfoldable pub step_back : ℕ → ℕ → Time → Time → Option Time
step_back zero step local start = none
step_back (suc fuel) step local start =
    let more = step_back fuel step local (add_days start (neg_ℤ (pos step))) in
    if after start local then more else some start

abbrev pub step_back_fuel : ℕ
step_back_fuel = 4

-- `periodIndex * step`: the whole steps since the anchor's day, rounded down.
unfoldable pub elapsed_steps : ℤ → ℕ → ℤ
elapsed_steps elapsed step =
    let index = quot elapsed step in
    let adjusted =
      if ltb_ℤ elapsed (pos 0) && not (eqb_ℤ (rem elapsed step) (pos 0))
      then index -ℤ pos 1
      else index in
    adjusted *ℤ pos step

unfoldable pub interval_span : ℕ → Time → Time → Option Span
interval_span step anchor local =
    let elapsed = civil_day local -ℤ civil_day anchor in
    elim (step_back step_back_fuel step local (add_days anchor (elapsed_steps elapsed step))) [
      | none ↦ none
      | some start ↦ some (start, add_days start (pos step))
    ]

abbrev pub value_or_zero : Option ℕ → ℕ
value_or_zero none = 0
value_or_zero (some n) = n

abbrev pub time_or_zero : Option Time → Time
time_or_zero none = zero_time
time_or_zero (some t) = t

unfoldable pub span_of : ResetRule → Location → Time → Time → Option Span
span_of value location started at =
    let local : Time = record at { location = location } in
    if beq value.kind reset_never
    then some (started, zero_time)
    else if beq value.kind reset_daily
    then some (daily_span local)
    else if beq value.kind reset_weekly
    then some (weekly_span (value_or_zero value.value) local)
    else if beq value.kind reset_monthly
    then some (monthly_span (value_or_zero value.value) local)
    else interval_span (value_or_zero value.value)
        (record (time_or_zero value.period_anchor) { location = location }) local

unfoldable pub period_id : (Bytes → Bytes) → Time → Option Time → Bytes
period_id sha256 start end =
    let input = format_utc start ++ 0 ∷ [] ++ (elim end [ none ↦ [] | some t ↦ format_utc t ]) in
    hex_encode (take 16 (sha256 input))

abbrev out_of_fuel : Error
out_of_fuel = error "model: out of fuel"

abbrev location_or_utc : Option Location → Location
location_or_utc none = utc_location
location_or_utc (some location) = location

-- What follows the `switch`: the start is held to the authorization, and both ends are in UTC.
unfoldable pub close_period : (Bytes → Bytes) → Time → Span → Period
close_period sha256 started (start, end) =
    let held = utc (if before start started then started else start) in
    let ends : Option Time = if is_zero end then none else some (utc end) in
    record { id = period_id sha256 held ends; starts_at = held; ends_at = ends }

unfoldable pub current_period :
    LoadLocation → (Bytes → Bytes) → ResetRule → Time → Time → Result Period
current_period load_location sha256 value authorization_started_at at = do
  validate_reset_rule load_location value
  reject_if (is_zero authorization_started_at || is_zero at)
      (error "authorization start and evaluation time must be set")
  let started = utc authorization_started_at
  reject_if (before (utc at) started) (error "evaluation time precedes authorization start")
  let location = location_or_utc (load_location value.timezone)
  elim (span_of value location started (utc at)) [
    | none ↦ err out_of_fuel
    | some span ↦ ok (close_period sha256 started span)
  ]

-- `value.EndsAt != nil && (value.EndsAt.IsZero() || !value.EndsAt.After(value.StartsAt))`
abbrev pub bad_end : Time → Option Time → Bool
bad_end start none = false
bad_end start (some end) = is_zero end || not (after end start)

unfoldable pub validate_period : (Bytes → Bytes) → Period → Check
validate_period sha256 value = do
  reject_if (not (match_string period_id_pattern value.id)) (error "period.id: invalid period ID")
  reject_if (is_zero value.starts_at) (error "period.starts_at: required")
  reject_if (bad_end value.starts_at value.ends_at)
      (error "period.ends_at: must be after starts_at")
  reject_if (not (beq value.id (period_id sha256 (utc value.starts_at) value.ends_at)))
      (error "period.id: does not match boundaries")

same_end : Option Time → Option Time → Bool
same_end none none = true
same_end (some a) (some b) = same_instant a b
same_end _ _ = false

unfoldable pub same_period : Period → Period → Bool
unfolding same_end
same_period first second =
    beq first.id second.id
    && same_instant first.starts_at second.starts_at
    && same_end first.ends_at second.ends_at
