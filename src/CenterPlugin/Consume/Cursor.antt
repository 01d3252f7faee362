-- ===== src/CenterPlugin/Consume/Cursor.antt =====
-- The cursors of the events that are consumed.
use relayward_sdk.Base.{
  ℕ, ◌+◌, ◌≤◌, ◌<◌, ◌≡◌, refl, sym, ap, List, [], ◌∷◌, ◌++◌, Option, some, none, arith, length, map,
  pass,
}
use relayward_sdk.Agent.Events.{max_int64}
use relayward_sdk.CenterPlugin.Publish.{maximum_event_batch_bytes}
use relayward_sdk.CenterPlugin.Consume.{
  StandardEvent, ConsumeEventsRequest, EventsConsumed, not_after, check_event, check_consumed,
  validate_consume_events_request, last_cursor, check_through, validate_events_consumed,
}

-- The cursors rise strictly from `low` on, and the last of them is `high`.
abbrev pub Rises : ℕ → List StandardEvent → ℕ → Type 0
Rises low [] high = low ≡ high
Rises low (event ∷ rest) high = (low < event.cursor) × Rises event.cursor rest high

abbrev pub payload_bytes : List StandardEvent → ℕ
payload_bytes [] = 0
payload_bytes (event ∷ rest) = length event.json + payload_bytes rest

pub Rises-high : (low high : ℕ) (events : List StandardEvent) → Rises low events high → low ≤ high
Rises-high low high [] r = omega (arith, r)
Rises-high low high (event ∷ rest) (lt, r) = omega (arith, lt, Rises-high event.cursor high rest r)

-- Two batches, the second from where the first ended.
pub Rises-append :
    (low middle high : ℕ) (events more : List StandardEvent)
    → Rises low events middle
    → Rises middle more high
    → Rises low (events ++ more) high
Rises-append low middle high [] more r q = rw r q
Rises-append low middle high (event ∷ rest) more (lt, r) q =
    (lt, Rises-append event.cursor middle high rest more r q)

-- What an accepted batch holds, after an event with the cursor `low`.
pub record Consumed (low total : ℕ) (values : List (Option StandardEvent)) (high : ℕ) : Type 0 where
  pub events : List StandardEvent
  pub present : values ≡ map some events
  pub rises : Rises low events high
  pub bounded : total + payload_bytes events ≤ maximum_event_batch_bytes

-- The cursor of the last event, or `low` where there is none.
abbrev last_from : ℕ → List (Option StandardEvent) → ℕ
last_from low [] = low
last_from low (v ∷ values) = last_cursor (v ∷ values)

last_from-cons :
    (low : ℕ) (event : StandardEvent) (rest : List (Option StandardEvent))
    → last_from event.cursor rest ≡ last_from low (some event ∷ rest)
unfolding last_cursor
last_from-cons low event [] = refl
last_from-cons low event (v ∷ rest) = refl

check_consumed-Consumed :
    (index low total : ℕ) (values : List (Option StandardEvent))
    → total ≤ maximum_event_batch_bytes
    → low ≤ max_int64
    → check_consumed index (some low) total values ≡ pass
    → Consumed low total values (last_from low values) × (last_from low values ≤ max_int64)
unfolding check_consumed check_event not_after
check_consumed-Consumed index low total [] b m h =
    (record { events = []; present = refl; rises = refl; bounded = omega (arith, b) }, m)
check_consumed-Consumed index low total (none ∷ rest) b m h = absurd (ground arith)
check_consumed-Consumed index low total (some event ∷ rest) b m h =
    let (more, top) =
      check_consumed-Consumed (index + 1) event.cursor (total + length event.json) rest
        (ground arith) (ground arith) (ground arith) in
    let last = last_from-cons low event rest in
    let above : low < event.cursor = ground arith in
    (
      record {
        events = event ∷ more.events;
        present = ap (◌∷◌ (some event)) {y = map some more.events} more.present;
        rises = (above, rw (sym last) more.rises);
        bounded = omega (arith, more.bounded);
      },
      rw (sym last) top,
    )

last_from-zero : (values : List (Option StandardEvent)) → last_from 0 values ≡ last_cursor values
unfolding last_cursor
last_from-zero [] = refl
last_from-zero (v ∷ values) = refl

-- The first round compares with no cursor, the others with one that is not zero.
start-zero :
    (values : List (Option StandardEvent))
    → check_consumed 0 none 0 values ≡ pass
    → check_consumed 0 (some 0) 0 values ≡ pass
unfolding check_consumed check_event not_after
start-zero [] h = h
start-zero (none ∷ rest) h = h
start-zero (some event ∷ rest) h = ground arith

-- An accepted answer acknowledges the last event of the batch: the cursors of the batch rise
-- strictly from above zero to `through_cursor`, which is the greatest of them and within an int64,
-- and the payloads take at most 768 KiB.
pub accepted_consumption :
    (request : ConsumeEventsRequest) (response : EventsConsumed)
    → validate_events_consumed (some request) (some response) ≡ pass
    → Consumed 0 0 request.events response.through_cursor × (response.through_cursor ≤ max_int64)
unfolding validate_events_consumed validate_consume_events_request check_through
accepted_consumption request response h =
    let checked =
      check_consumed-Consumed 0 0 0 request.events (omega arith) (omega arith)
        (start-zero request.events (ground arith)) in
    let last : response.through_cursor ≡ last_from 0 request.events =
      ground (arith, last_from-zero request.events) in
    rw last checked

-- The acknowledgement of the last event of an accepted batch is accepted.
pub last_cursor-accepted :
    (request : ConsumeEventsRequest)
    → validate_consume_events_request (some request) ≡ pass
    → validate_events_consumed
        (some request)
        (some (record { through_cursor = last_cursor request.events }))
      ≡ pass
unfolding validate_events_consumed check_through
last_cursor-accepted request h = ground arith
