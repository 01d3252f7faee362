-- ===== src/Clock.antt =====
-- Go's `time.Time` as the contracts use it: an instant and the location it is shown in.
pub mod Calendar
use relayward_sdk.Base.{ℕ, ◌*◌, ◌-◌, ◌^◌, Bool, List, [], Bytes, codes, if◌then◌else◌}
use relayward_sdk.Base.Int.{ℤ, pos, negsuc, ◌-ℤ◌, ltb_ℤ, eqb_ℤ}

-- What the time zone database knows of a place: its name and its offset from UTC, in seconds, at
-- each instant, in seconds since 0001-01-01T00:00:00Z.
pub record Location : Type 0 where
  pub name : Bytes
  pub offset : ℤ → ℤ

abbrev pub utc_location : Location
utc_location = record { name = codes "UTC"; offset = λ _. pos 0 }

-- `nanos` counts from Go's zero time, 0001-01-01T00:00:00Z.
pub record Time : Type 0 where
  pub nanos : ℤ
  pub location : Location

abbrev pub is_zero : Time → Bool
is_zero t = eqb_ℤ t.nanos (pos 0)

-- `a.After(b)`, `a.Before(b)` and `a.Equal(b)`.
abbrev pub after : Time → Time → Bool
after a b = ltb_ℤ b.nanos a.nanos

abbrev pub before : Time → Time → Bool
before a b = ltb_ℤ a.nanos b.nanos

abbrev pub same_instant : Time → Time → Bool
same_instant a b = eqb_ℤ a.nanos b.nanos

abbrev pub utc : Time → Time
utc t = record t { location = utc_location }

abbrev pub maximum_duration : ℕ
maximum_duration = 2 ^ 63 - 1

-- `a.Sub(b)` is a `Duration`, a number of nanoseconds held to the range of an int64.
abbrev pub clamp_duration : ℤ → ℤ
clamp_duration d =
    if ltb_ℤ (pos maximum_duration) d
    then pos maximum_duration
    else if ltb_ℤ d (negsuc maximum_duration)
    then negsuc maximum_duration
    else d

unfoldable pub sub : Time → Time → ℤ
sub a b = clamp_duration (a.nanos -ℤ b.nanos)

abbrev pub second : ℕ
second = 1000000000

abbrev pub hour : ℕ
hour = 3600 * second
