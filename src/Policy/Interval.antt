-- ===== src/Policy/Interval.antt =====
-- The periods of an interval rule do not start after the time of evaluation.
use mathlib.Core.Path.{subst}
use relayward_sdk.Base.{
  ℕ, zero, suc, ◌≡◌, ◌∙◌, refl, sym, false, some, Bytes, arith, beq, ok, inl, inr,
}
use relayward_sdk.Base.Int.{neg_ℤ, pos, ◌-ℤ◌}
use relayward_sdk.Clock.{Time, Location, after, before, utc}
use relayward_sdk.Clock.Calendar.{add_days}
use relayward_sdk.Policy.{
  LoadLocation, ResetRule, Period, reset_interval_days, step_back, step_back_fuel, interval_span,
  span_of, close_period, current_period, location_or_utc, value_or_zero, time_or_zero, civil_day,
  elapsed_steps,
}
use relayward_sdk.Policy.Close.{Option-cases}

step_back-before :
    (fuel step : ℕ) (local start last : Time)
    → step_back fuel step local start ≡ some last
    → after last local ≡ false
unfolding step_back
step_back-before zero step local start last h = cc h
step_back-before (suc fuel) step local start last h =
    ground (arith, step_back-before fuel step local (add_days start (neg_ℤ (pos step))) last)

interval_span-before :
    (step : ℕ) (anchor local start end : Time)
    → interval_span step anchor local ≡ some (start, end)
    → after start local ≡ false
unfolding interval_span
interval_span-before step anchor local start end h =
    let first = add_days anchor (elapsed_steps (civil_day local -ℤ civil_day anchor) step) in
    elim (Option-cases (step_back step_back_fuel step local first)) [
      | inr e ↦ absurd (ground arith)
      | inl (last, e) ↦
          let same : last ≡ start = ground arith in
          subst (λ t. after t local ≡ false) same
            (step_back-before step_back_fuel step local first last e)
    ]

span_of-interval :
    (rule : ResetRule) (location : Location) (started at : Time)
    → rule.kind ≡ reset_interval_days
    → span_of rule location started at
      ≡ interval_span
          (value_or_zero rule.value)
          (record (time_or_zero rule.period_anchor) { location = location })
          (record at { location = location })
unfolding span_of beq
span_of-interval rule location started at k = rw k refl

held_before :
    (sha256 : Bytes → Bytes) (started at start end : Time)
    → before at started ≡ false
    → after start at ≡ false
    → after (close_period sha256 started (start, end)).starts_at at ≡ false
unfolding close_period
held_before sha256 started at start end h k = ground arith

module _ (load_location : LoadLocation) (sha256 : Bytes → Bytes) where
  -- The period that `CurrentPeriod` returns for an interval rule does not start after the time of
  -- evaluation.
  pub interval_not_after :
      (rule : ResetRule) (started at : Time) (period : Period)
      → rule.kind ≡ reset_interval_days
      → current_period load_location sha256 rule started at ≡ ok period
      → after period.starts_at at ≡ false
  unfolding current_period
  interval_not_after rule started at period k h =
      let location = location_or_utc (load_location rule.timezone) in
      elim (Option-cases (span_of rule location (utc started) (utc at))) [
        | inr e ↦ absurd (ground arith)
        | inl ((start, end), e) ↦
            let made : close_period sha256 (utc started) (start, end) ≡ period = ground arith in
            let found = sym (span_of-interval rule location (utc started) (utc at) k) ∙ e in
            let kept =
              interval_span-before (value_or_zero rule.value)
                (record (time_or_zero rule.period_anchor) { location = location })
                (record at { location = location }) start end found in
            subst (λ (p : Period). after p.starts_at at ≡ false) made
              (held_before sha256 (utc started) at start end (ground arith) kept)
      ]
