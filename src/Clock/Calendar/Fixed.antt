-- ===== src/Clock/Calendar/Fixed.antt =====
-- Dates in a location whose offset from UTC never changes.
use relayward_sdk.Base.{◌≤◌, ℕ, ◌+◌, ◌*◌, ◌<◌, ◌≡◌, refl, sym, ◌∙◌, arith}
use relayward_sdk.Base.Int.{
  *ℤ_parts, parts_of_eq, add_sub_assoc, add_zero, ℤ, pos, negsuc, ◌+ℤ◌, ◌-ℤ◌, ◌*ℤ◌, floor_div,
  floor_mod, pos_part, neg_part, eq_of_parts, +ℤ_parts, -ℤ_parts,
}
use relayward_sdk.Clock.{Location, Time, second}
use relayward_sdk.Clock.Calendar.{
  day_number, civil_of_day, date, civil, add_days, local_seconds, seconds_per_day,
}
use relayward_sdk.Clock.Calendar.Inverse.{day_number-civil_of_day, civil_of_day-month}

abbrev pub Fixed : Location → ℤ → Type 0
Fixed location o = (s : ℤ) → location.offset s ≡ o

pub days_divide :
    (s : ℤ)
    → floor_div s seconds_per_day *ℤ pos seconds_per_day +ℤ pos (floor_mod s seconds_per_day) ≡ s
unfolding ◌+ℤ◌ ◌*ℤ◌
days_divide (pos n) = ground arith
days_divide (negsuc n) = ground arith

pub seconds_divide : (s : ℤ) → floor_div s second *ℤ pos second +ℤ pos (floor_mod s second) ≡ s
unfolding ◌+ℤ◌ ◌*ℤ◌
seconds_divide (pos n) = ground arith
seconds_divide (negsuc n) = ground arith

day_number-add :
    (year : ℤ) (m : ℕ) (a k : ℤ) → day_number year m (a +ℤ k) ≡ day_number year m a +ℤ k
unfolding day_number
day_number-add year m a k = add_sub_assoc _ a k (pos 1)

month_of_year :
    (m : ℕ)
    → 1 ≤ m
    → m ≤ 12
    → (floor_div (pos m -ℤ pos 1) 12 ≡ pos 0) × (floor_mod (pos m -ℤ pos 1) 12 + 1 ≡ m)
unfolding ◌-ℤ◌
month_of_year m first last = (ground arith, ground arith)

-- The instant of a day, counted from day `n`, and of a time of that day.
date-Fixed :
    (n k o : ℤ) (clock nanoseconds : ℕ) (location : Location)
    → Fixed location o
    → (date
        (civil_of_day n).year
        (pos (civil_of_day n).month)
        (pos (civil_of_day n).day +ℤ k)
        clock
        nanoseconds
        location).nanos
      ≡ ((n +ℤ k) *ℤ pos seconds_per_day +ℤ pos clock -ℤ o) *ℤ pos second +ℤ pos nanoseconds
unfolding date
date-Fixed n k o clock nanoseconds location fixed =
    let (first, last) = civil_of_day-month n in
    let (same_year, same_month) = month_of_year (civil_of_day n).month first last in
    rw
      (
        same_year,
        same_month,
        add_zero,
        day_number-add,
        day_number-civil_of_day,
        fixed ((n +ℤ k) *ℤ pos seconds_per_day +ℤ pos clock),
        fixed ((n +ℤ k) *ℤ pos seconds_per_day +ℤ pos clock -ℤ o),
      )
      refl

-- Whole days move the instant by their length.
scaled_days :
    (d k : ℤ) (c : ℕ)
    → (d +ℤ k) *ℤ pos seconds_per_day +ℤ pos c
      ≡ d *ℤ pos seconds_per_day +ℤ pos c +ℤ k *ℤ pos seconds_per_day
scaled_days d k c = eq_of_parts _ _ (
    omega (
      arith,
      +ℤ_parts d k,
      *ℤ_parts d seconds_per_day,
      *ℤ_parts k seconds_per_day,
      *ℤ_parts (d +ℤ k) seconds_per_day,
      +ℤ_parts (d *ℤ pos seconds_per_day) (pos c),
      +ℤ_parts ((d +ℤ k) *ℤ pos seconds_per_day) (pos c),
      +ℤ_parts (d *ℤ pos seconds_per_day +ℤ pos c) (k *ℤ pos seconds_per_day),
    ))

scaled_seconds :
    (q k o : ℤ) (c : ℕ)
    → (q +ℤ o +ℤ k *ℤ pos seconds_per_day -ℤ o) *ℤ pos second +ℤ pos c
      ≡ q *ℤ pos second +ℤ pos c +ℤ k *ℤ pos (86400 * second)
scaled_seconds q k o c =
    let days = k *ℤ pos seconds_per_day in
    let sum = q +ℤ o +ℤ days -ℤ o in
    eq_of_parts _ _ (
      omega (
        arith,
        +ℤ_parts q o,
        +ℤ_parts (q +ℤ o) days,
        -ℤ_parts (q +ℤ o +ℤ days) o,
        *ℤ_parts k seconds_per_day,
        *ℤ_parts sum second,
        +ℤ_parts (sum *ℤ pos second) (pos c),
        *ℤ_parts q second,
        +ℤ_parts (q *ℤ pos second) (pos c),
        *ℤ_parts k (86400 * second),
        +ℤ_parts (q *ℤ pos second +ℤ pos c) (k *ℤ pos (86400 * second)),
      ))

moved :
    (n o k : ℤ) (s : ℤ)
    → s ≡ floor_div n second +ℤ o
    → ((floor_div s seconds_per_day +ℤ k) *ℤ pos seconds_per_day
            +ℤ pos (floor_mod s seconds_per_day)
            -ℤ o)
          *ℤ pos second
        +ℤ pos (floor_mod n second)
      ≡ n +ℤ k *ℤ pos (86400 * second)
moved n o k s e =
    rw
      (
        scaled_days (floor_div s seconds_per_day) k (floor_mod s seconds_per_day),
        days_divide s,
        e,
        scaled_seconds (floor_div n second) k o (floor_mod n second),
        seconds_divide n,
      )
      refl

add_days_lem :
    (t : Time) (k : ℤ)
    → add_days t k ≡ (
        let c = civil_of_day (floor_div (local_seconds t) seconds_per_day) in
        date c.year
          (pos c.month)
          (pos c.day +ℤ k)
          (floor_mod (local_seconds t) seconds_per_day)
          (floor_mod t.nanos second)
          t.location)
unfolding add_days
add_days_lem t k = refl

local_seconds-Fixed :
    (t : Time) (o : ℤ) → Fixed t.location o → local_seconds t ≡ floor_div t.nanos second +ℤ o
unfolding local_seconds
local_seconds-Fixed t o fixed = rw (fixed (floor_div t.nanos second)) refl

pub add_days-Fixed :
    (t : Time) (k o : ℤ)
    → Fixed t.location o
    → (add_days t k).nanos ≡ t.nanos +ℤ k *ℤ pos (86400 * second)
add_days-Fixed t k o fixed =
    rw
      (
        add_days_lem t k,
        date-Fixed (floor_div (local_seconds t) seconds_per_day) k o
            (floor_mod (local_seconds t) seconds_per_day) (floor_mod t.nanos second) t.location
            fixed,
      )
      (moved t.nanos o k (local_seconds t) (local_seconds-Fixed t o fixed))

pub civil_lem : (t : Time) → civil t ≡ civil_of_day (floor_div (local_seconds t) seconds_per_day)
unfolding civil
civil_lem t = refl

-- The instant at which day `d` begins.
abbrev pub day_start : ℤ → ℤ → ℤ
day_start d o = (d *ℤ pos seconds_per_day -ℤ o) *ℤ pos second

pub day_start_parts :
    (d o : ℤ)
    → pos_part (day_start d o) + neg_part d * (86400 * second) + pos_part o * second
      ≡ neg_part (day_start d o) + pos_part d * (86400 * second) + neg_part o * second
day_start_parts d o =
    let days = d *ℤ pos seconds_per_day in
    omega (arith, *ℤ_parts d seconds_per_day, -ℤ_parts days o, *ℤ_parts (days -ℤ o) second)

pub date_start :
    (n o : ℤ) (location : Location)
    → Fixed location o
    → (date
        (civil_of_day n).year
        (pos (civil_of_day n).month)
        (pos (civil_of_day n).day)
        0
        0
        location).nanos
      ≡ day_start n o
date_start n o location fixed = simp add_zero at (date-Fixed n (pos 0) o 0 0 location fixed)

within_day :
    (d o q : ℤ) (c e : ℕ)
    → d *ℤ pos seconds_per_day +ℤ pos c ≡ q +ℤ o
    → q *ℤ pos second +ℤ pos e ≡ day_start d o +ℤ pos (c * second + e)
within_day d o q c e h =
    let days = d *ℤ pos seconds_per_day in
    eq_of_parts _ _ (
      omega (
        arith,
        parts_of_eq (days +ℤ pos c) (q +ℤ o) h,
        +ℤ_parts days (pos c),
        +ℤ_parts q o,
        *ℤ_parts q second,
        +ℤ_parts (q *ℤ pos second) (pos e),
        -ℤ_parts days o,
        *ℤ_parts (days -ℤ o) second,
        +ℤ_parts (day_start d o) (pos (c * second + e)),
      ))

pub days_mod : (s : ℤ) → floor_mod s seconds_per_day < seconds_per_day
days_mod (pos n) = omega arith
days_mod (negsuc n) = omega arith

pub seconds_mod : (s : ℤ) → floor_mod s second < second
seconds_mod (pos n) = omega arith
seconds_mod (negsuc n) = omega arith

-- An instant lies in its day.
pub day_split :
    (t : Time) (o : ℤ)
    → Fixed t.location o
    → (r : ℕ) × (r < 86400 * second)
      × (t.nanos ≡ day_start (floor_div (local_seconds t) seconds_per_day) o +ℤ pos r)
day_split t o fixed =
    let s = local_seconds t in
    let c = floor_mod s seconds_per_day in
    let e = floor_mod t.nanos second in
    let early = days_mod s in
    let late = seconds_mod t.nanos in
    (
      c * second + e,
      omega arith,
      sym (seconds_divide t.nanos)
          ∙ within_day (floor_div s seconds_per_day) o (floor_div t.nanos second) c e
              (days_divide s ∙ local_seconds-Fixed t o fixed),
    )

pub add_days-location : (t : Time) (k o : ℤ) → Fixed t.location o → Fixed (add_days t k).location o
unfolding add_days
add_days-location t k o fixed = fixed
