-- ===== src/Clock/Calendar.antt =====
-- `time.Date`, `Time.Date`, `Time.AddDate` and the RFC 3339 format: the proleptic Gregorian
-- calendar over days counted from 0001-01-01, a Monday.
pub mod Format
pub mod Inverse
pub mod Fixed
pub mod Digits
pub mod Read
use relayward_sdk.Base.{
  ℕ, zero, suc, ◌+◌, ◌-◌, ◌*◌, ◌/◌, ◌%◌, Bool, not, ◌&&◌, ◌||◌, [], ◌∷◌, ◌++◌, Bytes, codes, ltb,
  ◌==◌, if◌then◌else◌,
}
use relayward_sdk.Base.Int.{ℤ, pos, negsuc, ◌+ℤ◌, ◌-ℤ◌, ◌*ℤ◌, floor_div, floor_mod}
use relayward_sdk.Clock.{Location, Time, utc, second}

-- A day of the calendar and a time of that day.
pub record Civil : Type 0 where
  pub year : ℤ
  pub month : ℕ
  pub day : ℕ

-- Years are numbered within their cycle of 400, from 0: year 0 of the first cycle is year 1.
unfoldable pub is_leap : ℕ → Bool
is_leap y = let n = y + 1 in n % 4 == 0 && (not (n % 100 == 0) || n % 400 == 0)

unfoldable pub days_in_month : Bool → ℕ → ℕ
days_in_month leap m =
    if m == 2
    then (if leap then 29 else 28)
    else if m == 4 || m == 6 || m == 9 || m == 11
    then 30
    else 31

-- Days of the year before month `m`.
unfoldable pub days_before_month : Bool → ℕ → ℕ
days_before_month leap zero = 0
days_before_month leap (suc zero) = 0
days_before_month leap (suc (suc m)) = days_before_month leap (suc m) + days_in_month leap (suc m)

-- Days of the cycle before its year `y`.
unfoldable pub days_before_year : ℕ → ℕ
days_before_year y = y * 365 + y / 4 - y / 100

abbrev pub days_per_cycle : ℕ
days_per_cycle = 146097

-- The day number of a year, a month of it and a day, which may lie outside the month.
unfoldable pub day_number : ℤ → ℕ → ℤ → ℤ
unfolding days_before_year days_before_month days_in_month is_leap
day_number year month day =
    let y = floor_mod (year -ℤ pos 1) 400 in
    floor_div (year -ℤ pos 1) 400 *ℤ pos days_per_cycle
    +ℤ pos (days_before_year y + days_before_month (is_leap y) month)
    +ℤ (day -ℤ pos 1)

-- The year of the cycle that holds a day of the cycle.
unfoldable pub year_of_cycle : ℕ → ℕ
year_of_cycle d =
    let n100 = if d / 36524 == 4 then 3 else d / 36524 in
    let r = d - n100 * 36524 in
    let n4 = r / 1461 in
    let q = r - n4 * 1461 in
    let n1 = if q / 365 == 4 then 3 else q / 365 in n100 * 100 + n4 * 4 + n1

-- The month that holds day `d` of the year, from month `m` on, with `left` more to try.
unfoldable pub find_month : Bool → ℕ → ℕ → ℕ → ℕ × ℕ
find_month leap zero m d = (m, d + 1)
find_month leap (suc left) m d =
    let later = find_month leap left (m + 1) (d - days_in_month leap m) in
    if ltb d (days_in_month leap m) then (m, d + 1) else later

unfoldable pub civil_of_day : ℤ → Civil
unfolding year_of_cycle find_month days_in_month days_before_year is_leap
civil_of_day n =
    let d = floor_mod n days_per_cycle in
    let y = year_of_cycle d in
    let (m, day) = find_month (is_leap y) 11 1 (d - days_before_year y) in
    record { year = floor_div n days_per_cycle *ℤ pos 400 +ℤ pos (y + 1); month = m; day = day }

abbrev pub seconds_per_day : ℕ
seconds_per_day = 86400

-- Whole seconds since the zero time, as the clocks of the location show them.
unfoldable pub local_seconds : Time → ℤ
local_seconds t = let s = floor_div t.nanos second in s +ℤ t.location.offset s

-- `Time.Date`: year, month and day in the location.
unfoldable pub civil : Time → Civil
unfolding local_seconds civil_of_day
civil t = civil_of_day (floor_div (local_seconds t) seconds_per_day)

-- `Time.Weekday`, with Sunday as 0.
unfoldable pub weekday : Time → ℕ
unfolding local_seconds
weekday t = floor_mod (floor_div (local_seconds t) seconds_per_day +ℤ pos 1) 7

-- `time.Date`. A month outside 1 to 12 counts on into other years, and the day may lie outside the
-- month; `clock` counts the seconds of the day. Go guesses the offset at the local time and asks
-- once more at the guess.
unfoldable pub date : ℤ → ℤ → ℤ → ℕ → ℕ → Location → Time
unfolding day_number
date year month day clock nanoseconds location =
    let y = year +ℤ floor_div (month -ℤ pos 1) 12 in
    let m = floor_mod (month -ℤ pos 1) 12 + 1 in
    let unix = day_number y m day *ℤ pos seconds_per_day +ℤ pos clock in
    let guess = unix -ℤ location.offset unix in
    record {
      nanos = (unix -ℤ location.offset guess) *ℤ pos second +ℤ pos nanoseconds;
      location = location;
    }

-- `t.AddDate(0, 0, days)`
unfoldable pub add_days : Time → ℤ → Time
unfolding civil date local_seconds
add_days t days =
    let c = civil t in
    date c.year (pos c.month) (pos c.day +ℤ days) (floor_mod (local_seconds t) seconds_per_day)
      (floor_mod t.nanos second) t.location

-- Decimal digits, at least `width` of them.
decimal : ℕ → ℕ → ℕ → Bytes
decimal zero width n = []
decimal (suc fuel) width n =
    let more = decimal fuel (width - 1) (n / 10) ++ (b'0' + n % 10) ∷ [] in
    if n == 0 && width == 0 then [] else more

-- Twenty digits hold every 64-bit number.
unfoldable pub append_int : ℕ → ℕ → Bytes
unfolding decimal
append_int n width = decimal 20 width n

-- The fraction of a second without its trailing zeros.
trim_zeros : Bytes → Bytes
trim_zeros [] = []
trim_zeros (c ∷ s) = elim (trim_zeros s) [
  | [] ↦ if c == b'0' then [] else c ∷ []
  | d ∷ rest ↦ c ∷ d ∷ rest
]

pub fraction : ℕ → Bytes
fraction zero = []
fraction (suc n) = b'.' ∷ trim_zeros (append_int (suc n) 9)

pub format_year : ℤ → Bytes
format_year (pos n) = append_int n 4
format_year (negsuc n) = b'-' ∷ append_int (suc n) 4

-- The text of a date, the seconds of its day and the nanoseconds of the second.
unfoldable pub stamp : Civil → ℕ → ℕ → Bytes
unfolding append_int trim_zeros fraction format_year
stamp c clock nanoseconds =
    format_year c.year
    ++ (b'-'
        ∷ (append_int c.month 2
            ++ (b'-'
                ∷ (append_int c.day 2
                    ++ (b'T'
                        ∷ (append_int (clock / 3600) 2
                            ++ (b':'
                                ∷ (append_int (clock / 60 % 60) 2
                                    ++ (b':'
                                        ∷ (append_int (clock % 60) 2
                                            ++ (fraction nanoseconds ++ codes "Z")))))))))))

-- `t.UTC().Format(time.RFC3339Nano)`
unfoldable pub format_utc : Time → Bytes
unfolding civil local_seconds stamp
format_utc t =
    let u = utc t in
    stamp (civil u) (floor_mod (local_seconds u) seconds_per_day) (floor_mod u.nanos second)
