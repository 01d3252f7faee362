-- ===== src/Clock/Calendar/Format.antt =====
-- The RFC 3339 text of a time is short.
use relayward_sdk.Base.{
  ℕ, zero, suc, ◌+◌, ◌-◌, ◌/◌, ◌%◌, ◌≤◌, [], ◌∷◌, Bytes, arith, length, length-append, ◌≡◌, refl,
}
use relayward_sdk.Base.Int.{ℤ, pos, negsuc, floor_mod}
use relayward_sdk.Clock.{Time, utc, second}
use relayward_sdk.Clock.Calendar.{
  decimal, append_int, trim_zeros, fraction, format_year, format_utc, Civil, stamp, civil,
  local_seconds, seconds_per_day,
}

length-decimal : (fuel width n : ℕ) → length (decimal fuel width n) ≤ fuel
unfolding decimal
length-decimal zero width n = omega arith
length-decimal (suc fuel) width n = ground (
  arith,
  length-decimal fuel (width - 1) (n / 10),
  length-append (decimal fuel (width - 1) (n / 10)) ((b'0' + n % 10) ∷ []),
)

length-append_int : (n width : ℕ) → length (append_int n width) ≤ 20
unfolding append_int
length-append_int n width = length-decimal 20 width n

length-trim_zeros : (s : Bytes) → length (trim_zeros s) ≤ length s
unfolding trim_zeros
length-trim_zeros [] = omega arith
length-trim_zeros (c ∷ s) = ground (arith, length-trim_zeros s)

length-fraction : (n : ℕ) → length (fraction n) ≤ 21
unfolding fraction
length-fraction zero = omega arith
length-fraction (suc n) =
    omega (arith, length-trim_zeros (append_int (suc n) 9), length-append_int (suc n) 9)

length-format_year : (y : ℤ) → length (format_year y) ≤ 21
unfolding format_year
length-format_year (pos n) = omega (arith, length-append_int n 4)
length-format_year (negsuc n) = omega (arith, length-append_int (suc n) 4)

length-stamp : (c : Civil) (clock nanoseconds : ℕ) → length (stamp c clock nanoseconds) ≤ 200
unfolding stamp
length-stamp c clock nanoseconds =
    omega (arith, length-append {0}, length-append_int, length-fraction, length-format_year)

pub format_utc-stamp :
    (t : Time)
    → format_utc t
      ≡ stamp
          (civil (utc t))
          (floor_mod (local_seconds (utc t)) seconds_per_day)
          (floor_mod t.nanos second)
unfolding format_utc
format_utc-stamp t = refl

pub length-format_utc : (t : Time) → length (format_utc t) ≤ 200
length-format_utc t = rw (format_utc-stamp t) (
    length-stamp (civil (utc t)) (floor_mod (local_seconds (utc t)) seconds_per_day)
      (floor_mod t.nanos second))
