-- ===== src/Clock/Calendar/Read.antt =====
-- What is read back from the RFC 3339 text of a time.
use relayward_sdk.Base.{ℕ, ◌+◌, ◌-◌, ◌/◌, ◌%◌, ◌^◌, ◌≤◌, ◌<◌, ◌≡◌, refl, sym, ◌∙◌, inl, inr, arith}
use relayward_sdk.Base.Int.{
  ℤ, pos, negsuc, ◌+ℤ◌, ◌*ℤ◌, ◌≤ℤ◌, floor_div, floor_mod, add_zero, pos_part, neg_part,
}
use relayward_sdk.Clock.{Time, utc, second}
use relayward_sdk.Clock.Calendar.{
  format_utc, civil_of_day, seconds_per_day, days_per_cycle, Civil, stamp, local_seconds,
}
use relayward_sdk.Clock.Calendar.Inverse.{
  day_number-civil_of_day, civil_of_day-month, civil_of_day-day, civil_of_day-year,
}
use relayward_sdk.Clock.Calendar.Fixed.{
  civil_lem, days_divide, days_mod, seconds_divide, seconds_mod,
}
use relayward_sdk.Clock.Calendar.Format.{format_utc-stamp}
use relayward_sdk.Clock.Calendar.Digits.{field-cancel, seconds-cancel, year-cancel, YearFits}

-- The seconds of a Go time are an int64.
abbrev pub InRange : Time → Type 0
InRange t =
    (negsuc (2 ^ 63 - 1) ≤ℤ floor_div t.nanos second)
    × (floor_div t.nanos second ≤ℤ pos (2 ^ 63 - 1))

stamp-cancel :
    (c d : Civil) (k l m n : ℕ)
    → YearFits c.year
    → YearFits d.year
    → c.month ≤ days_per_cycle
    → d.month ≤ days_per_cycle
    → c.day ≤ days_per_cycle
    → d.day ≤ days_per_cycle
    → k < seconds_per_day
    → l < seconds_per_day
    → m < second
    → n < second
    → stamp c k m ≡ stamp d l n
    → (c.year ≡ d.year) × (c.month ≡ d.month) × (c.day ≡ d.day) × (k ≡ l) × (m ≡ n)
unfolding stamp
stamp-cancel c d k l m n yc yd mc md dc dd hk hl hm hn e =
    let (year, e₁) = year-cancel c.year d.year _ _ yc yd e in
    let (month, _, e₂) =
      field-cancel c.month d.month 2 _ _ b'-' b'-' (omega arith) (omega arith) (inl (omega arith))
        (inl (omega arith)) e₁ in
    let (day, _, e₃) =
      field-cancel c.day d.day 2 _ _ b'T' b'T' (omega arith) (omega arith) (inr (omega arith))
        (inr (omega arith)) e₂ in
    let (hours, _, e₄) =
      field-cancel (k / 3600) (l / 3600) 2 _ _ b':' b':' (omega arith) (omega arith)
        (inr (omega arith)) (inr (omega arith)) e₃ in
    let (minutes, _, e₅) =
      field-cancel (k / 60 % 60) (l / 60 % 60) 2 _ _ b':' b':' (omega arith) (omega arith)
        (inr (omega arith)) (inr (omega arith)) e₄ in
    let (seconds, nanoseconds) =
      seconds-cancel (k % 60) (l % 60) m n (omega arith) (omega arith) (omega arith) (omega arith)
        e₅ in
    (year, month, day, omega arith, nanoseconds)

YearFits-intro : (z : ℤ) → pos_part z < 10 ^ 20 → neg_part z < 10 ^ 20 → YearFits z
YearFits-intro (pos n) h k = h
YearFits-intro (negsuc n) h k = k

cycle_year-fits :
    (n : ℤ) (y : ℕ)
    → y < 400
    → negsuc (2 ^ 63 - 1) ≤ℤ n
    → n ≤ℤ pos (2 ^ 63 - 1)
    → YearFits (floor_div n days_per_cycle *ℤ pos 400 +ℤ pos (y + 1))
unfolding ◌+ℤ◌ ◌*ℤ◌
cycle_year-fits (pos n) y h lo hi = ground arith
cycle_year-fits (negsuc n) y h lo hi = YearFits-intro _ (ground arith) (ground arith)

-- Days are fewer than seconds.
days_in_range :
    (s : ℤ)
    → negsuc (2 ^ 63 - 1) ≤ℤ s
    → s ≤ℤ pos (2 ^ 63 - 1)
    → (negsuc (2 ^ 63 - 1) ≤ℤ floor_div s seconds_per_day)
      × (floor_div s seconds_per_day ≤ℤ pos (2 ^ 63 - 1))
days_in_range (pos n) lo hi = (omega arith, omega arith)
days_in_range (negsuc n) lo hi = (omega arith, omega arith)

year-fits :
    (s : ℤ)
    → negsuc (2 ^ 63 - 1) ≤ℤ s
    → s ≤ℤ pos (2 ^ 63 - 1)
    → YearFits (civil_of_day (floor_div s seconds_per_day)).year
year-fits s lo hi =
    let n = floor_div s seconds_per_day in
    let (y, small, year) = civil_of_day-year n in
    let (above, below) = days_in_range s lo hi in rw year (cycle_year-fits n y small above below)

local_seconds-utc : (t : Time) → local_seconds (utc t) ≡ floor_div t.nanos second
unfolding local_seconds
local_seconds-utc t = add_zero (floor_div t.nanos second)

stamp-nanos :
    (t : Time)
    → format_utc t
      ≡ stamp
          (civil_of_day (floor_div (floor_div t.nanos second) seconds_per_day))
          (floor_mod (floor_div t.nanos second) seconds_per_day)
          (floor_mod t.nanos second)
stamp-nanos t = rw (format_utc-stamp t, civil_lem (utc t), local_seconds-utc t) refl

civil_of_day-cancel :
    (m n : ℤ)
    → (civil_of_day m).year ≡ (civil_of_day n).year
    → (civil_of_day m).month ≡ (civil_of_day n).month
    → (civil_of_day m).day ≡ (civil_of_day n).day
    → m ≡ n
civil_of_day-cancel m n year month day =
    sym (day_number-civil_of_day m) ∙ rw (year, month, day) (day_number-civil_of_day n)

divided_seconds :
    (s r : ℤ)
    → floor_div s seconds_per_day ≡ floor_div r seconds_per_day
    → floor_mod s seconds_per_day ≡ floor_mod r seconds_per_day
    → s ≡ r
divided_seconds s r e f = sym (days_divide s) ∙ rw (e, f) (days_divide r)

divided_nanos :
    (m n : ℤ)
    → floor_div m second ≡ floor_div n second
    → floor_mod m second ≡ floor_mod n second
    → m ≡ n
divided_nanos m n e f = sym (seconds_divide m) ∙ rw (e, f) (seconds_divide n)

-- Two times with one text are one instant.
pub format_utc-injective :
    (t u : Time) → InRange t → InRange u → format_utc t ≡ format_utc u → t.nanos ≡ u.nanos
format_utc-injective t u (lt, ht) (lu, hu) e =
    let s = floor_div t.nanos second in
    let r = floor_div u.nanos second in
    let m = floor_div s seconds_per_day in
    let n = floor_div r seconds_per_day in
    let (_, m_month) = civil_of_day-month m in
    let (_, n_month) = civil_of_day-month n in
    let (year, month, day, clock, nanos) =
      stamp-cancel (civil_of_day m) (civil_of_day n) (floor_mod s seconds_per_day)
        (floor_mod r seconds_per_day) (floor_mod t.nanos second) (floor_mod u.nanos second)
        (year-fits s lt ht) (year-fits r lu hu) (omega arith) (omega arith) (civil_of_day-day m)
        (civil_of_day-day n) (days_mod s) (days_mod r) (seconds_mod t.nanos) (seconds_mod u.nanos)
        (sym (stamp-nanos t) ∙ e ∙ stamp-nanos u) in
    divided_nanos t.nanos u.nanos
      (divided_seconds s r (civil_of_day-cancel m n year month day) clock) nanos
