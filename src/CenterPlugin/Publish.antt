-- ===== src/CenterPlugin/Publish.antt =====
-- centerplugin/v1/validate.go: the events that a center plugin publishes.
pub mod Namespace
pub mod Batch
use relayward_sdk.Base.{
  ℕ, ◌+◌, ◌*◌, ◌^◌, Bool, not, ◌&&◌, ◌||◌, List, [], ◌∷◌, ◌++◌, Option, none, some, Bytes, codes,
  beq, ltb, ◌==◌, length, if◌then◌else◌, errorf, nil, num, cause, error, wrapf, Check, err, ◌>>◌,
  ◌>>=◌, pass, reject_if, or_else_error,
}
use relayward_sdk.Base.Int.{ℤ, pos, eqb_ℤ}
use relayward_sdk.Regex.{match_string}
use relayward_sdk.Json
use relayward_sdk.Json.{Codec}
use relayward_sdk.Contract.{validate_plugin_id}
use relayward_sdk.Agent.Validate.{not_above, has_prefix}
use relayward_sdk.CenterPlugin.Text.{uuid_pattern, event_kind_pattern, source_event_id_pattern}
use relayward_sdk.CenterPlugin.Notification.{
  NotificationRequest, event_notification_request, decode_notification_request,
}

abbrev pub maximum_event_batch_events : ℕ
maximum_event_batch_events = 128

abbrev pub maximum_event_payload_bytes : ℕ
maximum_event_payload_bytes = 256 * 2 ^ 10

abbrev pub maximum_event_batch_bytes : ℕ
maximum_event_batch_bytes = 768 * 2 ^ 10

pub record PublishedEvent : Type 0 where
  pub source_event_id : Bytes
  pub node_id : Bytes
  pub kind : Bytes
  pub observed_at_unix_nano : ℤ
  pub json : Bytes

pub record PublishEventsRequest : Type 0 where
  pub events : List (Option PublishedEvent)

pub record EventsPublished : Type 0 where
  pub event_count : ℕ

-- `len(event.Json) == 0 || len(event.Json) > MaximumEventPayloadBytes || !json.Valid(event.Json)`
unfoldable pub bad_payload : Bytes → Bool
bad_payload json =
    length json == 0 || ltb maximum_event_payload_bytes (length json) || not (Json.valid json)

-- `"plugin." + pluginID + "."`
unfoldable pub publisher_namespace : Bytes → Bytes
publisher_namespace plugin_id = codes "plugin." ++ (plugin_id ++ codes ".")

module _ (codec : Codec NotificationRequest) where
  check_notification : ℕ → PublishedEvent → Check
  check_notification index event =
      if beq event.kind event_notification_request
      then or_else_error (do _ ← decode_notification_request codec event.json; pass)
          (λ e. errorf "events[%d].json: %w" (num index (cause e nil)))
      else pass

  -- The checks of one event.
  unfoldable pub check_event : Bytes → ℕ → Option Bytes → PublishedEvent → Check
  unfolding check_notification
  check_event plugin_id index previous event = do
    reject_if (not (match_string source_event_id_pattern event.source_event_id))
        (errorf "events[%d].source_event_id: invalid source event ID" (num index nil))
    reject_if (not_above previous event.source_event_id)
        (error "events: source event IDs must be sorted and unique")
    reject_if (not (match_string uuid_pattern event.node_id))
        (errorf "events[%d].node_id: invalid node ID" (num index nil))
    reject_if (ltb 128 (length event.kind) || not (match_string event_kind_pattern event.kind))
        (errorf "events[%d].kind: invalid event kind" (num index nil))
    reject_if
        (not (beq event.kind event_notification_request)
          && not (has_prefix event.kind (publisher_namespace plugin_id)))
        (errorf "events[%d].kind: must use the publisher namespace" (num index nil))
    reject_if (eqb_ℤ event.observed_at_unix_nano (pos 0))
        (errorf "events[%d].observed_at_unix_nano: must be set" (num index nil))
    reject_if (bad_payload event.json) (
        errorf "events[%d].json: must contain at most %d bytes of valid JSON"
          (num index (num maximum_event_payload_bytes nil)))
    check_notification index event

  -- The loop over the events, with the last ID and the bytes counted so far.
  unfoldable pub check_published :
      Bytes → ℕ → Option Bytes → ℕ → List (Option PublishedEvent) → Check
  check_published plugin_id index previous total_bytes [] = pass
  check_published plugin_id index previous total_bytes (none ∷ rest) =
      err (errorf "events[%d]: required" (num index nil))
  check_published plugin_id index previous total_bytes (some event ∷ rest) = do
    check_event plugin_id index previous event
    reject_if (ltb maximum_event_batch_bytes (total_bytes + length event.json))
        (errorf "events: payloads exceed %d bytes" (num maximum_event_batch_bytes nil))
    check_published plugin_id (index + 1) (some event.source_event_id)
        (total_bytes + length event.json) rest

  unfoldable pub validate_publish_events_request : Option PublishEventsRequest → Bytes → Check
  validate_publish_events_request none plugin_id = err (error "request: required")
  validate_publish_events_request (some value) plugin_id = do
    or_else_error (validate_plugin_id plugin_id) (wrapf "plugin_id: %w")
    reject_if (length value.events == 0 || ltb maximum_event_batch_events (length value.events))
        (errorf "events: must contain 1 to %d values" (num maximum_event_batch_events nil))
    check_published plugin_id 0 none 0 value.events

  check_event_count : Option PublishEventsRequest → Option EventsPublished → Check
  check_event_count none response = pass
  check_event_count (some request) none = err (error "response: required")
  check_event_count (some request) (some response) =
      reject_if (not (response.event_count == length request.events))
        (error "event_count: does not match the request")

  unfoldable pub validate_events_published :
      Option PublishEventsRequest → Bytes → Option EventsPublished → Check
  unfolding check_event_count
  validate_events_published request plugin_id response = do
    validate_publish_events_request request plugin_id
    check_event_count request response
