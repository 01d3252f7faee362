-- ===== src/Policy/Current.antt =====
-- `CurrentPeriod` and the time of evaluation, in a location whose offset from UTC never changes.
use relayward_sdk.Base.{
  ◌≤◌, ◌≡◌, refl, inl, inr, Bool, true, false, not, ◌&&◌, arith, Option, none, some, Bool-cases,
  Bytes, beq, pass, ok,
}
use relayward_sdk.Base.Int.{ℤ}
use relayward_sdk.Clock.{Location, Time, after, before, is_zero, utc}
use relayward_sdk.Clock.Calendar.Fixed.{Fixed}
use relayward_sdk.Policy.{
  LoadLocation, ResetRule, Period, Span, reset_never, reset_daily, reset_weekly, reset_monthly,
  daily_span, weekly_span, check_kind, span_of, close_period, current_period, validate_reset_rule,
  value_or_zero, time_or_zero, location_or_utc, zero_time,
}
use relayward_sdk.Policy.Covers.{Contains, daily_span-Contains, weekly_span-Contains}
use relayward_sdk.Policy.Steps.{interval_span-Contains}

before_end : Time → Option Time → Bool
before_end at none = true
before_end at (some end) = before at end

-- The period has begun at `at` and has not ended.
unfoldable pub covers : Time → Period → Bool
unfolding before_end
covers at period = not (after period.starts_at at) && before_end at period.ends_at

closed_covers :
    (sha256 : Bytes → Bytes) (started at : Time) (span : Span)
    → before at started ≡ false
    → Contains at span
    → covers at (close_period sha256 started span) ≡ true
unfolding covers close_period
closed_covers sha256 started at (start, end) h (begun, ends) = ground arith

endless_covers :
    (sha256 : Bytes → Bytes) (started at : Time)
    → before at started ≡ false
    → covers at (close_period sha256 started (started, zero_time)) ≡ true
unfolding covers close_period
endless_covers sha256 started at h = ground arith

interval_step :
    (rule : ResetRule)
    → check_kind rule ≡ pass
    → beq rule.kind reset_never ≡ false
    → beq rule.kind reset_daily ≡ false
    → beq rule.kind reset_weekly ≡ false
    → beq rule.kind reset_monthly ≡ false
    → 1 ≤ value_or_zero rule.value
unfolding check_kind
interval_step rule h a b c d = ground arith

module _ (sha256 : Bytes → Bytes) (started at : Time) (in_time : before at started ≡ false) where
  -- The span of a rule, closed, holds the time of evaluation.
  abbrev SpanFound : ResetRule → Location → Type 0
  SpanFound rule location =
      (span : Span) × (span_of rule location started at ≡ some span)
      × (covers at (close_period sha256 started span) ≡ true)

  timed_span :
      (rule : ResetRule) (location : Location) (o : ℤ)
      → check_kind rule ≡ pass
      → beq rule.kind reset_never ≡ false
      → beq rule.kind reset_monthly ≡ false
      → Fixed location o
      → SpanFound rule location
  unfolding span_of
  timed_span rule location o h not_never not_monthly fixed =
      let local : Time = record at { location = location } in
      elim (Bool-cases (beq rule.kind reset_daily)) [
        | inl daily ↦ (
          daily_span local,
          rw (not_never, daily) refl,
          closed_covers sha256 started at (daily_span local) in_time
              (daily_span-Contains local o fixed),
        )
        | inr not_daily ↦ elim (Bool-cases (beq rule.kind reset_weekly)) [
          | inl weekly ↦
              let value = value_or_zero rule.value in
              (
                weekly_span value local,
                rw (not_never, not_daily, weekly) refl,
                closed_covers sha256 started at (weekly_span value local) in_time
                    (weekly_span-Contains value local o fixed),
              )
          | inr not_weekly ↦
              let step = interval_step rule h not_never not_daily not_weekly not_monthly in
              let anchor : Time = record (time_or_zero rule.period_anchor) {
                location = location;
              } in
              let (span, found, holds) =
                interval_span-Contains (value_or_zero rule.value) anchor local o step fixed fixed in
              (
                span,
                rw (not_never, not_daily, not_weekly, not_monthly) found,
                closed_covers sha256 started at span in_time holds,
              )
        ]
      ]

  span_found :
      (rule : ResetRule) (location : Location) (o : ℤ)
      → check_kind rule ≡ pass
      → beq rule.kind reset_monthly ≡ false
      → Fixed location o
      → SpanFound rule location
  unfolding span_of
  span_found rule location o h not_monthly fixed = elim (Bool-cases (beq rule.kind reset_never)) [
    | inl never ↦ ((started, zero_time), rw never refl, endless_covers sha256 started at in_time)
    | inr not_never ↦ timed_span rule location o h not_never not_monthly fixed
  ]

-- For a valid rule of any kind but monthly, in a location whose offset from UTC never changes,
-- with times that are set and an evaluation that is not before the authorization, `CurrentPeriod`
-- returns a period, its loop included, and the time of evaluation lies in the period: not before
-- its start, and before its end where it has one.
pub covers-current_period :
    (load_location : LoadLocation) (sha256 : Bytes → Bytes) (rule : ResetRule) (started at : Time)
    (o : ℤ)
    → validate_reset_rule load_location rule ≡ pass
    → is_zero started ≡ false
    → is_zero at ≡ false
    → before at started ≡ false
    → beq rule.kind reset_monthly ≡ false
    → Fixed (location_or_utc (load_location rule.timezone)) o
    → (period : Period) × (current_period load_location sha256 rule started at ≡ ok period)
      × (covers at period ≡ true)
unfolding current_period validate_reset_rule covers
covers-current_period load_location sha256 rule started at o v s a b not_monthly fixed =
    let (span, found, holds) =
      span_found sha256 (utc started) (utc at) b rule
        (location_or_utc (load_location rule.timezone)) o (ground arith) not_monthly fixed in
    (close_period sha256 (utc started) span, ground (arith, found), holds)
