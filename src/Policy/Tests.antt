-- ===== src/Policy/Tests.antt =====
-- The cases of policy/v1/period_test.go, over a sample of the time zone database.
use relayward_sdk.Base.{
  ℕ, ◌+◌, ◌*◌, ◌≡◌, refl, List, [], ◌∷◌, Option, none, some, Bytes, codes, beq, if◌then◌else◌,
  Result, ok, err,
}
use relayward_sdk.Base.Int.{ℤ, pos, negsuc, ltb_ℤ, ◌+ℤ◌, ◌-ℤ◌, ◌*ℤ◌}
use relayward_sdk.Clock.{utc_location, Time}
use relayward_sdk.Clock.Calendar.{civil, date, add_days, weekday, format_utc, day_number}
use relayward_sdk.Policy.{
  ResetRule, Period, LoadLocation, current_period, validate_reset_rule, check_kind, span_of,
  close_period, daily_span, weekly_span, monthly_span, monthly_boundary, adjacent_month,
  interval_span, step_back, elapsed_steps, civil_day,
}

-- Seconds since the zero time of a UTC day and hour.
unfoldable pub at_hour : ℕ → ℕ → ℕ → ℕ → ℤ
unfolding day_number ◌*ℤ◌ ◌+ℤ◌ ◌-ℤ◌
at_hour y m d h = day_number (pos y) m (pos d) *ℤ pos 86400 +ℤ pos (h * 3600)

-- Daylight saving time of 2026 in New York.
new_york_offset : ℤ → ℤ
unfolding at_hour
new_york_offset s =
    if ltb_ℤ s (at_hour 2026 3 8 7)
    then negsuc 17999
    else if ltb_ℤ s (at_hour 2026 11 1 6)
    then negsuc 14399
    else negsuc 17999

unfoldable pub sample_locations : LoadLocation
unfolding new_york_offset
sample_locations name =
    if beq name (codes "UTC")
    then some utc_location
    else if beq name (codes "Asia/Shanghai")
    then some (record { name = name; offset = λ _. pos 28800 })
    else if beq name (codes "America/New_York")
    then some (record { name = name; offset = new_york_offset })
    else none

-- Stands in for SHA-256 where the digest does not matter.
abbrev pub sample_digest : Bytes → Bytes
sample_digest s = s

abbrev utc_time : ℕ → ℕ → ℕ → ℕ → ℕ → Time
utc_time y m d h min = date (pos y) (pos m) (pos d) (h * 3600 + min * 60) 0 utc_location

abbrev boundaries : Result Period → List Bytes
boundaries (ok p) =
    format_utc p.starts_at ∷ elim p.ends_at [ none ↦ [] | some t ↦ format_utc t ∷ [] ]
boundaries (err e) = []

abbrev started : Time
started = utc_time 2026 1 20 15 30

abbrev rule : Bytes → Option ℕ → Bytes → ResetRule
rule kind value zone = record { kind = kind; value = value; timezone = zone; period_anchor = none }

run : ResetRule → Time → List Bytes
unfolding current_period validate_reset_rule check_kind span_of close_period daily_span weekly_span
    monthly_span monthly_boundary adjacent_month interval_span step_back elapsed_steps civil_day
    weekday add_days sample_locations beq format_utc date ◌*ℤ◌ ◌+ℤ◌ ◌-ℤ◌
run r at = boundaries (current_period sample_locations sample_digest r started at)

never_case :
    run (rule (codes "never") none (codes "UTC")) (utc_time 2026 8 2 12 0)
    ≡ codes "2026-01-20T15:30:00Z" ∷ []
unfolding run
never_case = refl

daily_case :
    run (rule (codes "daily") none (codes "America/New_York")) (utc_time 2026 3 8 18 0)
    ≡ codes "2026-03-08T05:00:00Z" ∷ codes "2026-03-09T04:00:00Z" ∷ []
unfolding run
daily_case = refl

weekly_case :
    run (rule (codes "weekly") (some 7) (codes "Asia/Shanghai")) (utc_time 2026 8 5 12 0)
    ≡ codes "2026-08-01T16:00:00Z" ∷ codes "2026-08-08T16:00:00Z" ∷ []
unfolding run
weekly_case = refl

monthly_case :
    run (rule (codes "monthly") (some 31) (codes "UTC")) (utc_time 2026 4 30 12 0)
    ≡ codes "2026-04-30T00:00:00Z" ∷ codes "2026-05-31T00:00:00Z" ∷ []
unfolding run
monthly_case = refl

monthly_january_case :
    run (rule (codes "monthly") (some 31) (codes "UTC")) (utc_time 2026 1 31 12 0)
    ≡ codes "2026-01-31T00:00:00Z" ∷ codes "2026-02-28T00:00:00Z" ∷ []
unfolding run
monthly_january_case = refl

interval_case :
    run
      (record {
        kind = codes "interval_days";
        value = some 7;
        timezone = codes "America/New_York";
        period_anchor = some (utc_time 2026 3 1 15 0);
      })
      (utc_time 2026 3 15 16 0)
    ≡ codes "2026-03-15T14:00:00Z" ∷ codes "2026-03-22T14:00:00Z" ∷ []
unfolding run
interval_case = refl

-- Month 0 of the year 0 is December of the year before.
before_year_one : adjacent_month (pos 0) (pos 1) (negsuc 0) ≡ (pos 0, pos 0)
unfolding adjacent_month ◌*ℤ◌ ◌+ℤ◌ ◌-ℤ◌
before_year_one = refl

month_zero :
    civil (monthly_boundary (pos 0) (pos 0) 31 utc_location)
    ≡ record { year = negsuc 0; month = 12; day = 31 }
unfolding monthly_boundary civil date ◌*ℤ◌ ◌+ℤ◌ ◌-ℤ◌
month_zero = refl
