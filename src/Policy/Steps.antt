-- ===== src/Policy/Steps.antt =====
-- The interval periods of `CurrentPeriod`, with the loop that steps back, in a location whose offset
-- from UTC never changes.
use relayward_sdk.Base.{
  ℕ, suc, ◌+◌, ◌*◌, ◌≤◌, ◌<◌, ◌≡◌, refl, ◌∙◌, inl, inr, true, false, arith, some, Bool-cases,
}
use relayward_sdk.Base.Int.{
  *ℤ_parts, ℤ, pos, ◌+ℤ◌, ◌-ℤ◌, ◌*ℤ◌, ◌≤ℤ◌, floor_div, pos_part, neg_part, +ℤ_parts, -ℤ_parts,
  neg_ℤ, ltb_ℤ,
}
use relayward_sdk.Clock.{Time, second, after}
use relayward_sdk.Clock.Calendar.{add_days, local_seconds, seconds_per_day}
use relayward_sdk.Clock.Calendar.Inverse.{day_number-civil_of_day}
use relayward_sdk.Clock.Calendar.Fixed.{
  Fixed, add_days-Fixed, add_days-location, civil_lem, day_split, day_start, day_start_parts,
}
use relayward_sdk.Policy.{Span, interval_span, civil_day, step_back, step_back_fuel, elapsed_steps}
use relayward_sdk.Policy.Covers.{Contains, Contains-intro}
use relayward_sdk.Policy.Elapsed.{elapsed_steps-bounds}

civil_day_lem : (t : Time) → civil_day t ≡ floor_div (local_seconds t) seconds_per_day
unfolding civil_day
civil_day_lem t =
    rw (civil_lem t) (day_number-civil_of_day (floor_div (local_seconds t) seconds_per_day))

-- The steps `e` that end at the day of `at` or less than a step before it.
whole_steps :
    (da dt o e : ℤ) (ra rt step : ℕ)
    → ra < 86400 * second
    → rt < 86400 * second
    → e ≤ℤ dt -ℤ da
    → pos_part (dt -ℤ da) + neg_part e < pos_part e + neg_part (dt -ℤ da) + step
    → (day_start dt o +ℤ pos rt +ℤ pos 1
        ≤ℤ day_start da o
          +ℤ pos ra
          +ℤ e *ℤ pos (86400 * second)
          +ℤ pos step *ℤ pos (86400 * second))
      × (day_start da o
            +ℤ pos ra
            +ℤ e *ℤ pos (86400 * second)
            +ℤ neg_ℤ (pos step) *ℤ pos (86400 * second)
          ≤ℤ day_start dt o +ℤ pos rt)
whole_steps da dt o e ra rt step ha ht hb hl =
    let length = 86400 * second in
    let a = day_start da o +ℤ pos ra in
    let t = day_start dt o +ℤ pos rt in
    let first = a +ℤ e *ℤ pos length in
    (
      omega (
        arith,
        day_start_parts da o,
        day_start_parts dt o,
        +ℤ_parts (day_start da o) (pos ra),
        +ℤ_parts (day_start dt o) (pos rt),
        +ℤ_parts t (pos 1),
        *ℤ_parts e length,
        +ℤ_parts a (e *ℤ pos length),
        *ℤ_parts (pos step) length,
        +ℤ_parts first (pos step *ℤ pos length),
        -ℤ_parts dt da,
      ),
      omega (
        arith,
        day_start_parts da o,
        day_start_parts dt o,
        +ℤ_parts (day_start da o) (pos ra),
        +ℤ_parts (day_start dt o) (pos rt),
        *ℤ_parts e length,
        +ℤ_parts a (e *ℤ pos length),
        -ℤ_parts (pos 0) (pos step),
        *ℤ_parts (neg_ℤ (pos step)) length,
        +ℤ_parts first (neg_ℤ (pos step) *ℤ pos length),
        -ℤ_parts dt da,
      ),
    )

whole_steps_of :
    (da dt o e at anchor first : ℤ) (ra rt step : ℕ)
    → ra < 86400 * second
    → rt < 86400 * second
    → e ≤ℤ dt -ℤ da
    → pos_part (dt -ℤ da) + neg_part e < pos_part e + neg_part (dt -ℤ da) + step
    → at ≡ day_start dt o +ℤ pos rt
    → anchor ≡ day_start da o +ℤ pos ra
    → first ≡ anchor +ℤ e *ℤ pos (86400 * second)
    → (at +ℤ pos 1 ≤ℤ first +ℤ pos step *ℤ pos (86400 * second))
      × (first +ℤ neg_ℤ (pos step) *ℤ pos (86400 * second) ≤ℤ at)
whole_steps_of da dt o e at anchor first ra rt step ha ht hb hl at_day anchor_day at_first =
    rw (at_first, anchor_day, at_day) (whole_steps da dt o e ra rt step ha ht hb hl)

civil_day_split :
    (t : Time) (o : ℤ)
    → Fixed t.location o
    → (r : ℕ) × (r < 86400 * second) × (t.nanos ≡ day_start (civil_day t) o +ℤ pos r)
civil_day_split t o fixed = rw (civil_day_lem t) (day_split t o fixed)

step_back-stop :
    (fuel step : ℕ) (local start : Time)
    → after start local ≡ false
    → step_back (suc fuel) step local start ≡ some start
unfolding step_back
step_back-stop fuel step local start h = rw h refl

step_back-again :
    (fuel step : ℕ) (local start : Time)
    → after start local ≡ true
    → step_back (suc fuel) step local start
      ≡ step_back fuel step local (add_days start (neg_ℤ (pos step)))
unfolding step_back
step_back-again fuel step local start h = rw h refl

back_and_forth :
    (first at : ℤ) (step : ℕ)
    → ltb_ℤ at first ≡ true
    → at +ℤ pos 1
      ≤ℤ first +ℤ neg_ℤ (pos step) *ℤ pos (86400 * second) +ℤ pos step *ℤ pos (86400 * second)
back_and_forth first at step h =
    let length = 86400 * second in
    let later : pos_part at + neg_part first < pos_part first + neg_part at = ground arith in
    let previous = first +ℤ neg_ℤ (pos step) *ℤ pos length in
    omega (
      arith,
      +ℤ_parts at (pos 1),
      -ℤ_parts (pos 0) (pos step),
      *ℤ_parts (neg_ℤ (pos step)) length,
      +ℤ_parts first (neg_ℤ (pos step) *ℤ pos length),
      *ℤ_parts (pos step) length,
      +ℤ_parts previous (pos step *ℤ pos length),
    )

-- One step back is enough.
step_back-found :
    (step : ℕ) (local first : Time) (o : ℤ)
    → Fixed first.location o
    → local.nanos +ℤ pos 1 ≤ℤ first.nanos +ℤ pos step *ℤ pos (86400 * second)
    → first.nanos +ℤ neg_ℤ (pos step) *ℤ pos (86400 * second) ≤ℤ local.nanos
    → (start : Time) × (step_back step_back_fuel step local first ≡ some start)
      × Contains local (start, add_days start (pos step))
step_back-found step local first o fixed late early = elim (Bool-cases (after first local)) [
  | inl later ↦
      let previous = add_days first (neg_ℤ (pos step)) in
      let fixed_previous = add_days-location first (neg_ℤ (pos step)) o fixed in
      let moved = add_days-Fixed first (neg_ℤ (pos step)) o fixed in
      let begun : previous.nanos ≤ℤ local.nanos = rw moved early in
      let ends : local.nanos +ℤ pos 1 ≤ℤ (add_days previous (pos step)).nanos =
        rw (add_days-Fixed previous (pos step) o fixed_previous, moved)
          (back_and_forth first.nanos local.nanos step later) in
      let holds = Contains-intro local previous (add_days previous (pos step)) begun ends in
      (
        previous,
        step_back-again 3 step local first later ∙ step_back-stop 2 step local previous holds.0,
        holds,
      )
  | inr begun ↦
      let ends : local.nanos +ℤ pos 1 ≤ℤ (add_days first (pos step)).nanos =
        rw (add_days-Fixed first (pos step) o fixed) late in
      let holds = Contains-intro local first (add_days first (pos step)) (ground arith) ends in
      (first, step_back-stop 3 step local first begun, holds)
]

pub interval_span-Contains :
    (step : ℕ) (anchor local : Time) (o : ℤ)
    → 1 ≤ step
    → Fixed anchor.location o
    → Fixed local.location o
    → (span : Span) × (interval_span step anchor local ≡ some span) × Contains local span
unfolding interval_span
interval_span-Contains step anchor local o h fixed_anchor fixed =
    let elapsed = civil_day local -ℤ civil_day anchor in
    let days = elapsed_steps elapsed step in
    let first = add_days anchor days in
    let (ra, ha, anchor_day) = civil_day_split anchor o fixed_anchor in
    let (rt, ht, local_day) = civil_day_split local o fixed in
    let (begun, ends) = elapsed_steps-bounds elapsed step h in
    let (late, early) =
      whole_steps_of (civil_day anchor) (civil_day local) o days local.nanos anchor.nanos
        first.nanos ra rt step ha ht begun ends local_day anchor_day
        (add_days-Fixed anchor days o fixed_anchor) in
    let (start, found, holds) =
      step_back-found step local first o (add_days-location anchor days o fixed_anchor) late
        early in
    ((start, add_days start (pos step)), rw (interval_span, found) refl, holds)
