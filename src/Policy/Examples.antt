-- ===== src/Policy/Examples.antt =====
-- Examples of the theorems on the periods that `CurrentPeriod` returns.
use relayward_sdk.Base.{
  beq, ℕ, ◌*◌, ◌++◌, ◌≡◌, refl, true, false, [], Option, some, none, Bytes, codes, Result, ok, err,
  pass,
}
use relayward_sdk.Base.Int.{pos}
use relayward_sdk.Clock.{after, Time, utc_location, utc, is_zero}
use relayward_sdk.Hash.Samples.{sample_hash}
use relayward_sdk.Policy.{
  ResetRule, Period, LoadLocation, reset_never, reset_interval_days, reset_monthly, current_period,
  period_id, validate_period, validate_reset_rule,
}
use relayward_sdk.Policy.Current.{covers, covers-current_period}

abbrev sample_locations : LoadLocation
sample_locations name = some (record { name = name; offset = λ _. pos 28800 })

abbrev at_second : ℕ → Time
at_second n = record { nanos = pos (n * 1000000000); location = utc_location }

abbrev daily : ResetRule
daily = record {
  kind = codes "daily";
  value = none;
  timezone = codes "Asia/Shanghai";
  period_anchor = none;
}

-- The day that begins at 16:00 UTC, as the evaluation is at 20:00.
abbrev day : Period
day = record {
  id = codes "2929292929292929292929292929" ++ codes "2929";
  starts_at = at_second 57600;
  ends_at = some (at_second 144000);
}

evaluated :
    current_period sample_locations sample_hash daily (at_second 10) (at_second 72000) ≡ ok day
unfolding current_period validate_reset_rule relayward_sdk.Base.beq relayward_sdk.Policy.check_kind
    relayward_sdk.Policy.span_of relayward_sdk.Policy.close_period period_id
    relayward_sdk.Policy.daily_span relayward_sdk.Encoding.hex_encode
    relayward_sdk.Clock.Calendar.date relayward_sdk.Clock.Calendar.add_days
    relayward_sdk.Clock.Calendar.format_utc relayward_sdk.Base.Int.◌+ℤ◌ relayward_sdk.Base.Int.◌*ℤ◌
    relayward_sdk.Base.Int.◌-ℤ◌
evaluated = refl

-- Three days from an anchor in the middle of a day. The evaluation is three days later and earlier
-- in the day, so that the loop steps back.
abbrev three_days : ResetRule
three_days = record {
  kind = reset_interval_days;
  value = some 3;
  timezone = codes "Asia/Shanghai";
  period_anchor = some (at_second 100000);
}

three_days_accepted : validate_reset_rule sample_locations three_days ≡ pass
unfolding validate_reset_rule beq relayward_sdk.Policy.check_kind
three_days_accepted = refl

three_days_are_not_monthly : beq three_days.kind reset_monthly ≡ false
unfolding beq
three_days_are_not_monthly = refl

covers-current_period_example :
    (period : Period) × (current_period sample_locations sample_hash three_days
        (at_second 10)
        (at_second 317800)
      ≡ ok period)
    × (covers (at_second 317800) period ≡ true)
covers-current_period_example =
    covers-current_period sample_locations sample_hash three_days (at_second 10) (at_second 317800)
      (pos 28800) three_days_accepted refl refl refl three_days_are_not_monthly (λ s. refl)
