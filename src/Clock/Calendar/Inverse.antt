-- ===== src/Clock/Calendar/Inverse.antt =====
-- The number of the day of a date, and the date of a day.
use relayward_sdk.Base.{ℕ, zero, suc, ◌+◌, ◌-◌, ◌≤◌, ◌<◌, ◌≡◌, refl, Bool, arith}
use relayward_sdk.Base.Int.{ℤ, pos, negsuc, ◌+ℤ◌, ◌-ℤ◌, ◌*ℤ◌, floor_div, floor_mod}
use relayward_sdk.Clock.Calendar.{
  is_leap, days_in_month, days_before_month, days_before_year, days_per_cycle, day_number,
  year_of_cycle, find_month, civil_of_day,
}

days_before_month-suc :
    (leap : Bool) (m : ℕ)
    → 1 ≤ m
    → days_before_month leap (m + 1) ≡ days_before_month leap m + days_in_month leap m
unfolding days_before_month
days_before_month-suc leap zero h = absurd (omega arith)
days_before_month-suc leap (suc m) h = ground arith

-- The month and the day that are found make up the day of the year.
find_month-day :
    (leap : Bool) (left m d : ℕ)
    → 1 ≤ m
    → days_before_month leap (find_month leap left m d).0 + (find_month leap left m d).1
      ≡ days_before_month leap m + d + 1
unfolding find_month
find_month-day leap zero m d h = omega arith
find_month-day leap (suc left) m d h = ground (
  arith,
  find_month-day leap left (m + 1) (d - days_in_month leap m),
  days_before_month-suc leap m,
)

find_month-range :
    (leap : Bool) (left m d : ℕ)
    → (m ≤ (find_month leap left m d).0)
      × ((find_month leap left m d).0 ≤ m + left)
      × (1 ≤ (find_month leap left m d).1)
unfolding find_month
find_month-range leap zero m d = (omega arith, omega arith, omega arith)
find_month-range leap (suc left) m d =
    ground (arith, find_month-range leap left (m + 1) (d - days_in_month leap m))

find_month-first :
    (leap : Bool) (d : ℕ)
    → days_before_month leap (find_month leap 11 1 d).0 + (find_month leap 11 1 d).1 ≡ d + 1
unfolding days_before_month
find_month-first leap d = let found = find_month-day leap 11 1 d (omega arith) in omega arith

-- A day of the cycle lies in the year that is found.
year_of_cycle-range :
    (d : ℕ)
    → d < days_per_cycle
    → (year_of_cycle d < 400) × (days_before_year (year_of_cycle d) ≤ d)
unfolding year_of_cycle days_before_year
year_of_cycle-range d h = ground arith

-- Years and days split into their cycle of 400 years and the rest.
cycle_year :
    (q : ℤ) (y : ℕ)
    → y < 400
    → (floor_div (q *ℤ pos 400 +ℤ pos (y + 1) -ℤ pos 1) 400 ≡ q)
      × (floor_mod (q *ℤ pos 400 +ℤ pos (y + 1) -ℤ pos 1) 400 ≡ y)
unfolding ◌+ℤ◌ ◌-ℤ◌ ◌*ℤ◌
cycle_year (pos q) y h = (ground arith, ground arith)
cycle_year (negsuc q) y h = (ground arith, ground arith)

cycle_day :
    (n : ℤ) (b c : ℕ)
    → b + c ≡ floor_mod n days_per_cycle + 1
    → 1 ≤ c
    → floor_div n days_per_cycle *ℤ pos days_per_cycle +ℤ pos b +ℤ (pos c -ℤ pos 1) ≡ n
unfolding ◌+ℤ◌ ◌-ℤ◌ ◌*ℤ◌
cycle_day (pos n) b c e h = ground arith
cycle_day (negsuc n) b c e h = ground arith

floor_mod-days : (n : ℤ) → floor_mod n days_per_cycle < days_per_cycle
floor_mod-days (pos n) = omega arith
floor_mod-days (negsuc n) = omega arith

-- The month and the day of the month of a day of the cycle.
found_month : ℕ → ℕ × ℕ
found_month d = let y = year_of_cycle d in find_month (is_leap y) 11 1 (d - days_before_year y)

civil_of_day_lem :
    (n : ℤ)
    → civil_of_day n ≡ record {
      year =
          floor_div n days_per_cycle *ℤ pos 400
          +ℤ pos (year_of_cycle (floor_mod n days_per_cycle) + 1);
      month = (found_month (floor_mod n days_per_cycle)).0;
      day = (found_month (floor_mod n days_per_cycle)).1;
    }
unfolding civil_of_day found_month
civil_of_day_lem n = refl

day_number_lem :
    (q : ℤ) (y m c : ℕ)
    → y < 400
    → day_number (q *ℤ pos 400 +ℤ pos (y + 1)) m (pos c)
      ≡ q *ℤ pos days_per_cycle
        +ℤ pos (days_before_year y + days_before_month (is_leap y) m)
        +ℤ (pos c -ℤ pos 1)
unfolding day_number
day_number_lem q y m c h =
    let (same_cycle, same_year) = cycle_year q y h in rw (same_cycle, same_year) refl

found_month_lem :
    (d : ℕ)
    → d < days_per_cycle
    → (days_before_year (year_of_cycle d)
          + days_before_month (is_leap (year_of_cycle d)) (found_month d).0
          + (found_month d).1
        ≡ d + 1)
      × (1 ≤ (found_month d).1)
unfolding found_month
found_month_lem d h =
    let y = year_of_cycle d in
    let begun = (year_of_cycle-range d h).1 in
    let whole = find_month-first (is_leap y) (d - days_before_year y) in
    let first = (find_month-range (is_leap y) 11 1 (d - days_before_year y)).2 in
    (omega arith, first)

-- The date of a day has the number of that day, for every day.
pub day_number-civil_of_day :
    (n : ℤ) → day_number (civil_of_day n).year (civil_of_day n).month (pos (civil_of_day n).day) ≡ n
day_number-civil_of_day n =
    let d = floor_mod n days_per_cycle in
    let (whole, first) = found_month_lem d (floor_mod-days n) in
    rw
      (
        civil_of_day_lem n,
        day_number_lem (floor_div n days_per_cycle) (year_of_cycle d) (found_month d).0
            (found_month d).1 (year_of_cycle-range d (floor_mod-days n)).0,
      )
      (cycle_day n _ (found_month d).1 whole first)

-- The month of a date is from 1 to 12.
pub civil_of_day-month : (n : ℤ) → (1 ≤ (civil_of_day n).month) × ((civil_of_day n).month ≤ 12)
unfolding found_month
civil_of_day-month n =
    let d = floor_mod n days_per_cycle in
    let y = year_of_cycle d in
    let (from_first, to_last, _) = find_month-range (is_leap y) 11 1 (d - days_before_year y) in
    rw (civil_of_day_lem n) (from_first, to_last)

-- The day of a date is short to write, and its year is one of its cycle.
pub civil_of_day-day : (n : ℤ) → (civil_of_day n).day ≤ days_per_cycle
civil_of_day-day n =
    let d = floor_mod n days_per_cycle in
    let small = floor_mod-days n in
    let (whole, first) = found_month_lem d small in rw (civil_of_day_lem n) (omega arith)

pub civil_of_day-year :
    (n : ℤ)
    → (y : ℕ) × (y < 400)
      × ((civil_of_day n).year ≡ floor_div n days_per_cycle *ℤ pos 400 +ℤ pos (y + 1))
civil_of_day-year n =
    let d = floor_mod n days_per_cycle in
    (year_of_cycle d, (year_of_cycle-range d (floor_mod-days n)).0, rw (civil_of_day_lem n) refl)
