-- ===== src/Agent/Telemetry.antt =====
-- agent/v1/telemetry.go: traffic snapshots and access events. `net.ParseIP` with `IP.String` is the
-- parameter `parse_ip`: the canonical text of an address, or `none` for nil.
use relayward_sdk.Base.{
  ℕ, Bool, false, not, ◌&&◌, ◌||◌, [], Option, none, some, Bytes, codes, beq, ltb, ◌==◌, length,
  errorf, nil, num, text, error, wrapf, Check, Result, ok, ◌>>◌, ◌>>=◌, reject_if, or_else_error,
}
use relayward_sdk.Regex.{Regex, match_string}
use relayward_sdk.Unicode.{is_trimmed, has_no_control}
use relayward_sdk.Json.{Codec, decode_strict}
use relayward_sdk.Contract.{validate_plugin_id}
use relayward_sdk.Protocol.{idempotency_key_pattern}
use relayward_sdk.Policy.{Period, validate_identifier, validate_period}
use relayward_sdk.Agent.Validate.{message_id_pattern, component_id_pattern}
use relayward_sdk.Agent.Events.{max_int64}

-- ^[A-Za-z0-9][A-Za-z0-9._:-]{0,127}$, as for idempotency keys.
abbrev pub source_event_id_pattern : Regex
source_event_id_pattern = idempotency_key_pattern

abbrev pub access_action_accepted : Bytes
access_action_accepted = codes "accepted"

abbrev pub access_action_blocked : Bytes
access_action_blocked = codes "blocked"

pub record TrafficSnapshotEvent : Type 0 where
  pub authorization_id : Bytes
  pub period : Period
  pub revision : ℕ
  pub upload_bytes : ℕ
  pub download_bytes : ℕ

pub record AccessEvent : Type 0 where
  pub source_stream_id : Bytes
  pub source_event_id : Bytes
  pub plugin_id : Bytes
  pub service_id : Bytes
  pub authorization_id : Bytes
  pub source_ip : Bytes
  pub destination : Bytes
  pub destination_port : ℕ
  pub network : Bytes
  pub protocol : Bytes
  pub action : Bytes

unfoldable pub validate_traffic_snapshot_event : (Bytes → Bytes) → TrafficSnapshotEvent → Check
validate_traffic_snapshot_event sha256 value = do
  validate_identifier (codes "authorization_id") value.authorization_id
  validate_period sha256 value.period
  reject_if (value.revision == 0 || ltb max_int64 value.revision)
      (errorf "revision: must be between 1 and %d" (num max_int64 nil))
  reject_if (ltb max_int64 value.upload_bytes || ltb max_int64 value.download_bytes)
      (errorf "traffic bytes: must not exceed %d" (num max_int64 nil))

unfoldable pub decode_traffic_snapshot_event :
    (Bytes → Bytes) → Codec TrafficSnapshotEvent → Bytes → Result TrafficSnapshotEvent
decode_traffic_snapshot_event sha256 codec raw = do
  value ← or_else_error (decode_strict codec raw) (wrapf "decode traffic snapshot event: %w")
  validate_traffic_snapshot_event sha256 value
  ok value

abbrev pub ParseIp : Type 0
ParseIp = Bytes → Option Bytes

-- `parsed != nil && parsed.String() == value`
unfoldable pub is_canonical_ip : ParseIp → Bytes → Bool
is_canonical_ip parse_ip value = elim (parse_ip value) [
  | none ↦ false
  | some canonical ↦ beq canonical value
]

unfoldable pub validate_telemetry_text : Bytes → Bytes → ℕ → Check
validate_telemetry_text field value maximum = do
  reject_if (not (is_trimmed value) || ltb maximum (length value))
      (errorf "%s: must contain at most %d trimmed bytes" (text field (num maximum nil)))
  reject_if (not (has_no_control value))
      (errorf "%s: must not contain control characters" (text field nil))

unfoldable pub validate_access_event : ParseIp → AccessEvent → Check
validate_access_event parse_ip value = do
  reject_if (not (match_string message_id_pattern value.source_stream_id))
      (error "source_stream_id: invalid stream ID")
  reject_if (not (match_string source_event_id_pattern value.source_event_id))
      (error "source_event_id: invalid event ID")
  or_else_error (validate_plugin_id value.plugin_id) (wrapf "plugin_id: %w")
  reject_if (not (match_string component_id_pattern value.service_id))
      (error "service_id: invalid service ID")
  validate_identifier (codes "authorization_id") value.authorization_id
  reject_if (not (beq value.source_ip []) && not (is_canonical_ip parse_ip value.source_ip))
      (error "source_ip: must be a canonical IP address")
  validate_telemetry_text (codes "destination") value.destination 253
  reject_if (ltb 65535 value.destination_port) (error "destination_port: must not exceed 65535")
  reject_if
      (not (beq value.network [])
        && not (beq value.network (codes "tcp"))
        && not (beq value.network (codes "udp")))
      (error "network: must be tcp or udp")
  validate_telemetry_text (codes "protocol") value.protocol 64
  reject_if
      (not (beq value.action access_action_accepted || beq value.action access_action_blocked))
      (errorf "action: unsupported value %q" (text value.action nil))

unfoldable pub decode_access_event : ParseIp → Codec AccessEvent → Bytes → Result AccessEvent
decode_access_event parse_ip codec raw = do
  value ← or_else_error (decode_strict codec raw) (wrapf "decode access event: %w")
  validate_access_event parse_ip value
  ok value
