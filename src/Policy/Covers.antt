-- ===== src/Policy/Covers.antt =====
-- The daily and the weekly periods of `CurrentPeriod` in a location whose offset from UTC
-- never changes.
use relayward_sdk.Base.{ℕ, ◌*◌, ◌<◌, ◌≡◌, refl, true, false, arith}
use relayward_sdk.Base.Int.{ℤ, pos, ◌+ℤ◌, ◌*ℤ◌, ◌≤ℤ◌, floor_div, +ℤ_parts, int_laws, neg_ℤ}
use relayward_sdk.Clock.{Time, second, after, before}
use relayward_sdk.Clock.Calendar.{add_days, date, local_seconds, seconds_per_day}
use relayward_sdk.Clock.Calendar.Fixed.{
  Fixed, add_days-Fixed, add_days-location, civil_lem, date_start, day_split, day_start,
}
use relayward_sdk.Policy.{Span, midnight, daily_span, weekly_span}

-- The span has begun at `at` and ends later.
abbrev pub Contains : Time → Span → Type 0
Contains at span = (after span.0 at ≡ false) × (before at span.1 ≡ true)

midnight-location : (t : Time) (o : ℤ) → Fixed t.location o → Fixed (midnight t).location o
unfolding date
midnight-location t o fixed = fixed

midnight-Fixed :
    (t : Time) (o : ℤ)
    → Fixed t.location o
    → (midnight t).nanos ≡ day_start (floor_div (local_seconds t) seconds_per_day) o
midnight-Fixed t o fixed =
    rw (civil_lem t) (date_start (floor_div (local_seconds t) seconds_per_day) o t.location fixed)

-- `b` days back from the day of `at`, for `w` days.
window :
    (day at : ℤ) (r b w : ℕ)
    → r < 86400 * second
    → at ≡ day +ℤ pos r
    → b < w
    → (day +ℤ neg_ℤ (pos b) *ℤ pos (86400 * second) ≤ℤ at)
      × (at +ℤ pos 1
          ≤ℤ day +ℤ neg_ℤ (pos b) *ℤ pos (86400 * second) +ℤ pos w *ℤ pos (86400 * second))
unfolding ◌*ℤ◌
window day at r b w h e k = rw e (grind int_laws, grind int_laws)

window_day :
    (day at : ℤ) (r : ℕ)
    → r < 86400 * second
    → at ≡ day +ℤ pos r
    → (day ≤ℤ at) × (at +ℤ pos 1 ≤ℤ day +ℤ pos 1 *ℤ pos (86400 * second))
unfolding ◌*ℤ◌
window_day day at r h e = rw e (grind int_laws, grind int_laws)

pub Contains-intro :
    (at start end : Time)
    → start.nanos ≤ℤ at.nanos
    → at.nanos +ℤ pos 1 ≤ℤ end.nanos
    → Contains at (start, end)
Contains-intro at start end h k =
    let next = +ℤ_parts at.nanos (pos 1) in (ground arith, ground arith)

pub daily_span-Contains :
    (local : Time) (o : ℤ) → Fixed local.location o → Contains local (daily_span local)
unfolding daily_span
daily_span-Contains local o fixed =
    let (r, small, e) = day_split local o fixed in
    let start = midnight local in
    let (begun, ends) = window_day _ local.nanos r small e in
    Contains-intro local start (add_days start (pos 1)) (rw (midnight-Fixed local o fixed) begun) (
      rw
        (
          add_days-Fixed start (pos 1) o (midnight-location local o fixed),
          midnight-Fixed local o fixed,
        )
        ends)

back_some_days :
    (local : Time) (o : ℤ) (b w : ℕ)
    → Fixed local.location o
    → b < w
    → (let start = add_days (midnight local) (neg_ℤ (pos b)) in
        Contains local (start, add_days start (pos w)))
back_some_days local o b w fixed k =
    let (r, small, e) = day_split local o fixed in
    let fixed_midnight = midnight-location local o fixed in
    let start = add_days (midnight local) (neg_ℤ (pos b)) in
    let fixed_start = add_days-location (midnight local) (neg_ℤ (pos b)) o fixed_midnight in
    let (begun, ends) = window _ local.nanos r b w small e k in
    let at_start : start.nanos ≡ _ =
      rw
        (
          add_days-Fixed (midnight local) (neg_ℤ (pos b)) o fixed_midnight,
          midnight-Fixed local o fixed,
        )
        refl in
    Contains-intro local start (add_days start (pos w)) (rw at_start begun)
      (rw (add_days-Fixed start (pos w) o fixed_start, at_start) ends)

pub weekly_span-Contains :
    (value : ℕ) (local : Time) (o : ℤ)
    → Fixed local.location o
    → Contains local (weekly_span value local)
unfolding weekly_span
weekly_span-Contains value local o fixed = back_some_days local o _ 7 fixed (omega arith)
