-- ===== src/NodePlugin/Telemetry.antt =====
-- nodeplugin/v1/validate.go: telemetry collection.
use relayward_sdk.Base.{
  ℕ, ◌+◌, ◌%◌, ◌^◌, Bool, not, ◌&&◌, ◌||◌, List, [], ◌∷◌, ◌++◌, Option, none, some, Bytes, codes,
  ltb, ◌==◌, length, errorf, nil, num, cause, error, Check, Result, ok, err, ◌>>◌, ◌>>=◌, pass,
  reject_if, or_else_error,
}
mod Tests
mod Sequence
use relayward_sdk.Base.Int.{ℤ, pos, ltb_ℤ}
use relayward_sdk.Regex.{match_string}
use relayward_sdk.Policy.{validate_identifier}
use relayward_sdk.Agent.Validate.{component_id_pattern, not_above}
use relayward_sdk.Agent.Events.{max_int64}
use relayward_sdk.Agent.Telemetry
use relayward_sdk.Agent.Telemetry.{ParseIp}

abbrev pub maximum_telemetry_events : ℕ
maximum_telemetry_events = 500

abbrev pub maximum_traffic_counters : ℕ
maximum_traffic_counters = 4096

pub record CollectTelemetryRequest : Type 0 where
  pub after_sequence : ℕ
  pub maximum_events : ℕ

pub record TrafficCounter : Type 0 where
  pub authorization_id : Bytes
  pub service_id : Bytes
  pub counter_epoch : Bytes
  pub upload_bytes : ℕ
  pub download_bytes : ℕ

pub record AccessEvent : Type 0 where
  pub sequence : ℕ
  pub event_id : Bytes
  pub observed_at_unix_nano : ℤ
  pub authorization_id : Bytes
  pub service_id : Bytes
  pub source_ip : Bytes
  pub destination : Bytes
  pub destination_port : ℕ
  pub network : Bytes
  pub protocol : Bytes
  pub action : Bytes

pub record CollectTelemetryResponse : Type 0 where
  pub observed_at_unix_nano : ℤ
  pub counters : List (Option TrafficCounter)
  pub events : List (Option AccessEvent)
  pub next_sequence : ℕ
  pub has_more : Bool

unfoldable pub validate_collect_telemetry_request : Option CollectTelemetryRequest → Check
validate_collect_telemetry_request none = err (error "request: required")
validate_collect_telemetry_request (some value) = do
  reject_if (ltb max_int64 value.after_sequence)
      (errorf "after_sequence: must not exceed %d" (num max_int64 nil))
  reject_if (ltb value.maximum_events 1 || ltb maximum_telemetry_events value.maximum_events)
      (errorf "maximum_events: must be between 1 and %d" (num maximum_telemetry_events nil))

unfoldable pub validate_traffic_counter : TrafficCounter → Check
validate_traffic_counter value = do
  validate_identifier (codes "authorization_id") value.authorization_id
  reject_if (not (match_string component_id_pattern value.service_id))
      (error "service_id: invalid service ID")
  reject_if (not (match_string component_id_pattern value.counter_epoch))
      (error "counter_epoch: invalid counter epoch")

-- `counter.AuthorizationId + "\x00" + counter.ServiceId`
unfoldable pub counter_key : TrafficCounter → Bytes
counter_key counter = counter.authorization_id ++ 0 ∷ counter.service_id

-- The loop over the counters.
unfoldable pub check_counters : ℕ → Option Bytes → List (Option TrafficCounter) → Check
check_counters index previous [] = pass
check_counters index previous (none ∷ rest) =
    err (errorf "counters[%d]: %w" (num index (cause (error "required") nil)))
check_counters index previous (some counter ∷ rest) = do
  or_else_error (validate_traffic_counter counter)
      (λ e. errorf "counters[%d]: %w" (num index (cause e nil)))
  reject_if (not_above previous (counter_key counter))
      (error "counters: values must be sorted by authorization_id and service_id and unique")
  check_counters (index + 1) (some (counter_key counter)) rest

-- The event as the Agent's own, with a stream and a plugin that stand for none in particular.
unfoldable pub standard_event : AccessEvent → Telemetry.AccessEvent
standard_event value = record {
  source_stream_id = codes "00000000000000000000000000000000";
  source_event_id = value.event_id;
  plugin_id = codes "io.relayward.validation";
  service_id = value.service_id;
  authorization_id = value.authorization_id;
  source_ip = value.source_ip;
  destination = value.destination;
  destination_port = value.destination_port;
  network = value.network;
  protocol = value.protocol;
  action = value.action;
}

unfoldable pub validate_access_event : ParseIp → AccessEvent → Check
validate_access_event parse_ip value = do
  reject_if (value.sequence == 0 || ltb max_int64 value.sequence)
      (errorf "sequence: must be between 1 and %d" (num max_int64 nil))
  Telemetry.validate_access_event parse_ip (standard_event value)
  reject_if (not (ltb_ℤ (pos 0) value.observed_at_unix_nano))
      (error "observed_at_unix_nano: must be greater than zero")

-- The loop over the events; it returns the sequence of the last, or the cursor it began at.
unfoldable pub check_events : ParseIp → ℕ → ℕ → List (Option AccessEvent) → Result ℕ
check_events parse_ip index next [] = ok next
check_events parse_ip index next (none ∷ rest) =
    err (errorf "events[%d]: %w" (num index (cause (error "required") nil)))
check_events parse_ip index next (some event ∷ rest) = do
  or_else_error (validate_access_event parse_ip event)
      (λ e. errorf "events[%d]: %w" (num index (cause e nil)))
  reject_if (not (event.sequence == (next + 1) % 2 ^ 64))
      (errorf "events[%d]: sequence must be contiguous after request cursor" (num index nil))
  check_events parse_ip (index + 1) event.sequence rest

check_page : ParseIp → CollectTelemetryRequest → CollectTelemetryResponse → Check
check_page parse_ip request value = do
  reject_if (not (ltb_ℤ (pos 0) value.observed_at_unix_nano))
      (error "observed_at_unix_nano: must be greater than zero")
  reject_if (ltb maximum_traffic_counters (length value.counters))
      (errorf "counters: must contain at most %d values" (num maximum_traffic_counters nil))
  check_counters 0 none value.counters
  reject_if (ltb request.maximum_events (length value.events))
      (error "events: exceeds requested maximum")
  next ← check_events parse_ip 0 request.after_sequence value.events
  reject_if (not (value.next_sequence == next))
      (error "next_sequence: must equal the last returned sequence or request cursor")
  reject_if (value.has_more && not (length value.events == request.maximum_events))
      (error "has_more: requires a full event page")

check_response : ParseIp → Option CollectTelemetryRequest → Option CollectTelemetryResponse → Check
check_response parse_ip none response = pass
check_response parse_ip (some request) none = err (error "response: required")
check_response parse_ip (some request) (some value) = check_page parse_ip request value

unfoldable pub validate_collect_telemetry_response :
    ParseIp → Option CollectTelemetryRequest → Option CollectTelemetryResponse → Check
unfolding check_response check_page
validate_collect_telemetry_response parse_ip request value = do
  validate_collect_telemetry_request request
  check_response parse_ip request value
