-- ===== src/CenterPlugin/Consume.antt =====
-- centerplugin/v1/validate.go: the events that a center plugin consumes.
pub mod Cursor
use relayward_sdk.Base.{
  ℕ, ◌+◌, Bool, false, not, ◌||◌, List, [], ◌∷◌, Option, none, some, Bytes, ltb, leb, ◌==◌, length,
  errorf, nil, num, error, Check, err, ◌>>◌, pass, reject_if,
}
use relayward_sdk.Base.Int.{ℤ, pos, ltb_ℤ, eqb_ℤ}
use relayward_sdk.Regex.{match_string}
use relayward_sdk.Agent.Events.{max_int64}
use relayward_sdk.CenterPlugin.Text.{uuid_pattern, sha256_pattern, event_kind_pattern}
use relayward_sdk.CenterPlugin.Publish.{
  maximum_event_batch_events, maximum_event_payload_bytes, maximum_event_batch_bytes, bad_payload,
}

pub record StandardEvent : Type 0 where
  pub cursor : ℕ
  pub event_id : Bytes
  pub node_id : Bytes
  pub kind : Bytes
  pub observed_at_unix_nano : ℤ
  pub received_at_unix_nano : ℤ
  pub json : Bytes

pub record ConsumeEventsRequest : Type 0 where
  pub events : List (Option StandardEvent)

pub record EventsConsumed : Type 0 where
  pub through_cursor : ℕ

-- `index > 0 && event.Cursor <= previous`
unfoldable pub not_after : Option ℕ → ℕ → Bool
not_after none cursor = false
not_after (some previous) cursor = leb cursor previous

-- The checks of one event.
unfoldable pub check_event : ℕ → Option ℕ → StandardEvent → Check
check_event index previous event = do
  reject_if (event.cursor == 0 || ltb max_int64 event.cursor) (
      errorf "events[%d].cursor: must be between 1 and the maximum signed 64-bit integer"
        (num index nil))
  reject_if (not_after previous event.cursor) (error "events: cursors must be strictly increasing")
  reject_if (not (match_string sha256_pattern event.event_id))
      (errorf "events[%d].event_id: invalid event ID" (num index nil))
  reject_if (not (match_string uuid_pattern event.node_id))
      (errorf "events[%d].node_id: invalid node ID" (num index nil))
  reject_if (ltb 128 (length event.kind) || not (match_string event_kind_pattern event.kind))
      (errorf "events[%d].kind: invalid event kind" (num index nil))
  reject_if (eqb_ℤ event.observed_at_unix_nano (pos 0))
      (errorf "events[%d].observed_at_unix_nano: must be set" (num index nil))
  reject_if (not (ltb_ℤ (pos 0) event.received_at_unix_nano))
      (errorf "events[%d].received_at_unix_nano: must be positive" (num index nil))
  reject_if (bad_payload event.json) (
      errorf "events[%d].json: must contain at most %d bytes of valid JSON"
        (num index (num maximum_event_payload_bytes nil)))

-- The loop over the events, with the last cursor and the bytes counted so far.
unfoldable pub check_consumed : ℕ → Option ℕ → ℕ → List (Option StandardEvent) → Check
check_consumed index previous total_bytes [] = pass
check_consumed index previous total_bytes (none ∷ rest) =
    err (errorf "events[%d]: required" (num index nil))
check_consumed index previous total_bytes (some event ∷ rest) = do
  check_event index previous event
  reject_if (ltb maximum_event_batch_bytes (total_bytes + length event.json))
      (errorf "events: payloads exceed %d bytes" (num maximum_event_batch_bytes nil))
  check_consumed (index + 1) (some event.cursor) (total_bytes + length event.json) rest

unfoldable pub validate_consume_events_request : Option ConsumeEventsRequest → Check
validate_consume_events_request none = err (error "request: required")
validate_consume_events_request (some value) = do
  reject_if (length value.events == 0 || ltb maximum_event_batch_events (length value.events))
      (errorf "events: must contain 1 to %d values" (num maximum_event_batch_events nil))
  check_consumed 0 none 0 value.events

-- `request.Events[len(request.Events)-1].Cursor`; an accepted request has events, none of them nil.
unfoldable pub last_cursor : List (Option StandardEvent) → ℕ
last_cursor [] = 0
last_cursor (none ∷ []) = 0
last_cursor (some event ∷ []) = event.cursor
last_cursor (_ ∷ event ∷ rest) = last_cursor (event ∷ rest)

check_through : Option ConsumeEventsRequest → Option EventsConsumed → Check
check_through none response = pass
check_through (some request) none = err (error "response: required")
check_through (some request) (some response) =
    reject_if (not (response.through_cursor == last_cursor request.events))
      (error "through_cursor: must acknowledge the complete batch")

unfoldable pub validate_events_consumed :
    Option ConsumeEventsRequest → Option EventsConsumed → Check
unfolding check_through
validate_events_consumed request response = do
  validate_consume_events_request request
  check_through request response
