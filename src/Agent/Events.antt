-- ===== src/Agent/Events.antt =====
-- agent/v1/events.go: events, their content IDs, batches and acknowledgements. SHA-256 and the
-- JSON encoding of a batch are parameters; numbers of type uint64 are below 2 ^ 64.
mod Tests
mod Batch
mod Identity
mod Create
use relayward_sdk.Base.{
  ℕ, ◌+◌, ◌-◌, ◌*◌, ◌%◌, ◌^◌, Bool, false, not, ◌||◌, List, [], ◌∷◌, ◌++◌, Option, none, some,
  Bytes, beq, ltb, ◌==◌, length, errorf, nil, num, text, cause, error, wrapf, Check, Result, ok,
  err, ◌>>◌, ◌>>=◌, pass, reject_if, or_else_error,
}
use relayward_sdk.Regex.{match_string}
use relayward_sdk.Clock.{Time, is_zero, utc}
use relayward_sdk.Clock.Calendar.{format_utc}
use relayward_sdk.Json
use relayward_sdk.Json.{Codec, decode_strict}
use relayward_sdk.Encoding.{hex_encode, put_uint64}
use relayward_sdk.Agent.Validate.{message_id_pattern, kind_pattern}
use relayward_sdk.Agent.Register.{api_version, validate_node_id}
use relayward_sdk.Agent.Commands.{digest_pattern}

abbrev pub maximum_event_payload_bytes : ℕ
maximum_event_payload_bytes = 256 * 2 ^ 10

abbrev pub maximum_event_batch_events : ℕ
maximum_event_batch_events = 500

abbrev pub maximum_event_batch_expanded_bytes : ℕ
maximum_event_batch_expanded_bytes = 4 * 2 ^ 20

abbrev pub max_int64 : ℕ
max_int64 = 2 ^ 63 - 1

abbrev pub maximum_event_sequence : ℕ
maximum_event_sequence = max_int64

pub record Event : Type 0 where
  pub sequence : ℕ
  pub event_id : Bytes
  pub kind : Bytes
  pub observed_at : Time
  pub payload : Bytes

pub record EventBatch : Type 0 where
  pub api_version : Bytes
  pub node_id : Bytes
  pub stream_id : Bytes
  pub first_sequence : ℕ
  pub last_sequence : ℕ
  pub events : List Event

pub record EventBatchAck : Type 0 where
  pub api_version : Bytes
  pub stream_id : Bytes
  pub highest_contiguous_sequence : ℕ
  pub server_time : Time

unfoldable pub validate_event_content : Event → Check
validate_event_content value = do
  reject_if (value.sequence == 0 || ltb maximum_event_sequence value.sequence)
      (errorf "sequence: must be between 1 and %d" (num maximum_event_sequence nil))
  reject_if (not (match_string kind_pattern value.kind) || ltb 128 (length value.kind))
      (error "kind: invalid event kind")
  reject_if (is_zero value.observed_at) (error "observed_at: must be set")
  reject_if
      (length value.payload == 0
        || ltb maximum_event_payload_bytes (length value.payload)
        || not (Json.valid value.payload))
      (errorf "payload: must contain at most %d bytes of valid JSON"
        (num maximum_event_payload_bytes nil))

-- `writeDigestField`: the length in eight bytes, then the value.
unfoldable pub digest_field : Bytes → Bytes
digest_field value = put_uint64 (length value) ++ value

-- All that `EventID` writes to the digest; `payload` is the compact one.
unfoldable pub event_preimage : Bytes → Bytes → Event → Bytes → Bytes
event_preimage node_id stream_id value payload =
    digest_field api_version
    ++ (digest_field node_id
        ++ (digest_field stream_id
            ++ (put_uint64 value.sequence
                ++ (digest_field value.kind
                    ++ (digest_field (format_utc value.observed_at) ++ digest_field payload)))))

-- `EventID`
unfoldable pub event_id : (Bytes → Bytes) → Bytes → Bytes → Event → Result Bytes
event_id sha256 node_id stream_id value = do
  validate_node_id node_id
  reject_if (not (match_string message_id_pattern stream_id)) (error "stream_id: invalid stream ID")
  validate_event_content value
  payload ← or_else_error (Json.compact value.payload) (λ _. error "payload: invalid JSON")
  ok (hex_encode (sha256 (event_preimage node_id stream_id value payload)))

-- `encoded` is the result of `json.Marshal(payload)`.
unfoldable pub new_event :
    (Bytes → Bytes) → Bytes → Bytes → ℕ → Bytes → Time → Result Bytes → Result Event
new_event sha256 node_id stream_id sequence kind observed_at encoded = do
  raw ← or_else_error encoded (wrapf "encode event payload: %w")
  let value : Event = record {
    sequence = sequence;
    event_id = [];
    kind = kind;
    observed_at = utc observed_at;
    payload = raw;
  }
  id ← event_id sha256 node_id stream_id value
  ok (record value { event_id = id })

unfoldable pub validate_event : Event → Check
validate_event value = do
  reject_if (not (match_string digest_pattern value.event_id)) (error "event_id: invalid event ID")
  validate_event_content value

unfoldable pub validate_event_for_node : (Bytes → Bytes) → Bytes → Bytes → Event → Check
validate_event_for_node sha256 node_id stream_id value = do
  validate_event value
  expected ← event_id sha256 node_id stream_id value
  reject_if (not (beq value.event_id expected)) (error "event_id: does not match event content")

-- `event.Sequence != previous.Sequence + 1`, in 64 bits; there is no previous event at first.
abbrev pub not_next : Option ℕ → ℕ → Bool
not_next none sequence = false
not_next (some previous) sequence = not (sequence == (previous + 1) % 2 ^ 64)

-- The loop of `ValidateEventBatch`.
unfoldable pub check_events : (Bytes → Bytes) → Bytes → Bytes → ℕ → Option ℕ → List Event → Check
check_events sha256 node_id stream_id index previous [] = pass
check_events sha256 node_id stream_id index previous (event ∷ rest) = do
  or_else_error (validate_event_for_node sha256 node_id stream_id event)
      (λ e. errorf "events[%d]: %w" (num index (cause e nil)))
  reject_if (not_next previous event.sequence)
      (errorf "events[%d]: sequence is not contiguous" (num index nil))
  check_events sha256 node_id stream_id (index + 1) (some event.sequence) rest

-- The sequence of the last event; `event` is the first.
unfoldable pub last_sequence_of : Event → List Event → ℕ
last_sequence_of event [] = event.sequence
last_sequence_of event (next ∷ rest) = last_sequence_of next rest

unfoldable pub check_bounds : EventBatch → Check
check_bounds value = elim value.events [
  | [] ↦ err (errorf "events: must contain 1 to %d events" (num maximum_event_batch_events nil))
  | event ∷ rest ↦
      reject_if
        (not (value.first_sequence == event.sequence)
          || not (value.last_sequence == last_sequence_of event rest))
        (error "sequence bounds do not match events")
]

unfoldable pub validate_event_batch : (Bytes → Bytes) → Codec EventBatch → EventBatch → Check
validate_event_batch sha256 codec value = do
  reject_if (not (beq value.api_version api_version))
      (errorf "api_version: unsupported value %q" (text value.api_version nil))
  validate_node_id value.node_id
  reject_if (not (match_string message_id_pattern value.stream_id))
      (error "stream_id: invalid stream ID")
  reject_if (length value.events == 0 || ltb maximum_event_batch_events (length value.events))
      (errorf "events: must contain 1 to %d events" (num maximum_event_batch_events nil))
  check_bounds value
  check_events sha256 value.node_id value.stream_id 0 none value.events
  raw ← or_else_error (codec.marshal value) (wrapf "encode event batch: %w")
  reject_if (ltb maximum_event_batch_expanded_bytes (length raw))
      (errorf "event batch exceeds %d bytes" (num maximum_event_batch_expanded_bytes nil))

unfoldable pub validate_event_batch_for_node :
    (Bytes → Bytes) → Codec EventBatch → Bytes → EventBatch → Check
validate_event_batch_for_node sha256 codec node_id value = do
  validate_event_batch sha256 codec value
  reject_if (not (beq value.node_id node_id)) (error "node_id: does not match authenticated node")

unfoldable pub validate_event_batch_ack : EventBatchAck → Check
validate_event_batch_ack value = do
  reject_if (not (beq value.api_version api_version))
      (errorf "api_version: unsupported value %q" (text value.api_version nil))
  reject_if (not (match_string message_id_pattern value.stream_id))
      (error "stream_id: invalid stream ID")
  reject_if
      (value.highest_contiguous_sequence == 0
        || ltb maximum_event_sequence value.highest_contiguous_sequence)
      (errorf "highest_contiguous_sequence: must be between 1 and %d"
        (num maximum_event_sequence nil))
  reject_if (is_zero value.server_time) (error "server_time: must be set")

unfoldable pub decode_event_batch : (Bytes → Bytes) → Codec EventBatch → Bytes → Result EventBatch
decode_event_batch sha256 codec reader = do
  value ← or_else_error (decode_strict codec reader) (wrapf "decode event batch: %w")
  validate_event_batch sha256 codec value
  ok value

unfoldable pub decode_event_batch_ack : Codec EventBatchAck → Bytes → Result EventBatchAck
decode_event_batch_ack codec reader = do
  value ←
      or_else_error (decode_strict codec reader) (wrapf "decode event batch acknowledgement: %w")
  validate_event_batch_ack value
  ok value
