-- ===== src/Agent/Messages/Interval.antt =====
-- The heartbeat interval of a center's hello, and the overflow in its check.
use relayward_sdk.Base.{ℕ, ◌+◌, ◌*◌, ◌^◌, ◌-◌, ◌≤◌, ◌<◌, ◌≡◌, ◌↔◌, true, false, arith, pass}
use relayward_sdk.Base.Int.{ℤ, pos, negsuc, ◌*ℤ◌, ◌≤ℤ◌, *ℤ_parts}
use relayward_sdk.Regex.{match_string}
use relayward_sdk.Clock.{is_zero, second}
use relayward_sdk.Agent.Validate.{message_id_pattern}
use relayward_sdk.Agent.Messages.{CenterHello, heartbeat_interval, validate_center_hello}

-- The interval in nanoseconds, without the wrap-around.
abbrev pub nanoseconds : ℤ → ℤ
nanoseconds seconds = seconds *ℤ pos second

heartbeat_interval-fits :
    (seconds : ℤ)
    → negsuc (2 ^ 63 - 1) ≤ℤ nanoseconds seconds
    → nanoseconds seconds ≤ℤ pos (2 ^ 63 - 1)
    → heartbeat_interval seconds ≡ nanoseconds seconds
unfolding heartbeat_interval ◌*ℤ◌
heartbeat_interval-fits (pos n) lo hi = ground arith
heartbeat_interval-fits (negsuc n) lo hi = ground arith

-- Where the interval in nanoseconds fits in an int64, a hello is accepted exactly if its session is
-- an ID, its interval is from 5 to 300 seconds, and its time is set.
pub accepted_interval_iff :
    (hello : CenterHello)
    → negsuc (2 ^ 63 - 1) ≤ℤ nanoseconds hello.heartbeat_interval_seconds
    → nanoseconds hello.heartbeat_interval_seconds ≤ℤ pos (2 ^ 63 - 1)
    → (validate_center_hello hello ≡ pass) ↔ (
        (match_string message_id_pattern hello.session_id ≡ true)
        × (pos 5 ≤ℤ hello.heartbeat_interval_seconds)
        × (hello.heartbeat_interval_seconds ≤ℤ pos 300)
        × (is_zero hello.server_time ≡ false))
unfolding validate_center_hello
accepted_interval_iff hello lo hi =
    let scaled = *ℤ_parts hello.heartbeat_interval_seconds second in
    ground (arith, heartbeat_interval-fits hello.heartbeat_interval_seconds lo hi)

heartbeat_interval-wraps :
    (n k : ℕ) → n ≤ 300 → heartbeat_interval (pos (n + k * 2 ^ 55)) ≡ pos (n * second)
unfolding heartbeat_interval
heartbeat_interval-wraps n k h = ground arith

-- `time.Duration(seconds) * time.Second` wraps: an interval that exceeds an accepted one by any
-- multiple of 2 ^ 55 seconds, within the range of an int, is accepted too.
pub overflow_accepted :
    (hello : CenterHello) (n k : ℕ)
    → match_string message_id_pattern hello.session_id ≡ true
    → is_zero hello.server_time ≡ false
    → 5 ≤ n
    → n ≤ 300
    → n + k * 2 ^ 55 < 2 ^ 63
    → validate_center_hello (record hello { heartbeat_interval_seconds = pos (n + k * 2 ^ 55) })
      ≡ pass
unfolding validate_center_hello
overflow_accepted hello n k s t lo hi range = ground (arith, heartbeat_interval-wraps n k hi)
