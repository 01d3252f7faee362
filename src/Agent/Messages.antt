-- ===== src/Agent/Messages.antt =====
-- agent/v1/messages.go, and the envelope constructors of agent/v1/commands.go.
mod Tests
pub mod Depth
pub mod Interval
use relayward_sdk.Base.{
  ℕ, zero, suc, ◌*◌, not, ◌||◌, List, [], Option, none, some, Bytes, codes, beq, if◌then◌else◌,
  errorf, nil, num, text, cause, error, wrapf, Check, Result, ok, err, ◌>>◌, ◌>>=◌, pass, reject_if,
  or_else_error,
}
use relayward_sdk.Base.Int.{ℤ, pos, ◌*ℤ◌, ltb_ℤ, wrap_int64}
use relayward_sdk.Regex.{match_string}
use relayward_sdk.Clock.{Time, is_zero, second}
use relayward_sdk.Json.{Codec, decode_strict}
use relayward_sdk.Contract.{agent_api_version}
use relayward_sdk.Protocol
use relayward_sdk.Protocol.{
  RandomSource, Envelope, Problem, validate_problem, validate_idempotency_key,
}
use relayward_sdk.Agent.Validate.{message_id_pattern, validate_agent_version, validate_capabilities}
use relayward_sdk.Agent.Register.{validate_node_id}
use relayward_sdk.Agent.Commands.{
  Command, CommandResult, CommandResultAck, validate_command, validate_command_result,
  validate_command_result_ack,
}

abbrev pub message_agent_hello : Bytes
message_agent_hello = codes "agent.hello"

abbrev pub message_center_hello : Bytes
message_center_hello = codes "center.hello"

abbrev pub message_agent_heartbeat : Bytes
message_agent_heartbeat = codes "agent.heartbeat"

abbrev pub message_center_heartbeat_ack : Bytes
message_center_heartbeat_ack = codes "center.heartbeat_ack"

abbrev pub message_center_command : Bytes
message_center_command = codes "center.command"

abbrev pub message_agent_command_result : Bytes
message_agent_command_result = codes "agent.command_result"

abbrev pub message_center_command_result_ack : Bytes
message_center_command_result_ack = codes "center.command_result_ack"

abbrev pub message_protocol_error : Bytes
message_protocol_error = codes "protocol.error"

abbrev pub minimum_heartbeat_interval : ℕ
minimum_heartbeat_interval = 5 * second

abbrev pub maximum_heartbeat_interval : ℕ
maximum_heartbeat_interval = 300 * second

pub record AgentHello : Type 0 where
  pub node_id : Bytes
  pub agent_version : Bytes
  pub started_at : Time
  pub capabilities : List Bytes

-- The interval is a Go `int` of 64 bits.
pub record CenterHello : Type 0 where
  pub session_id : Bytes
  pub heartbeat_interval_seconds : ℤ
  pub server_time : Time

pub record Heartbeat : Type 0 where
  pub session_id : Bytes
  pub agent_version : Bytes
  pub observed_at : Time

pub record HeartbeatAck : Type 0 where
  pub message_id : Bytes
  pub server_time : Time
  pub command : Option Envelope

unfoldable pub validate_agent_hello : AgentHello → Check
validate_agent_hello value = do
  validate_node_id value.node_id
  validate_agent_version value.agent_version
  reject_if (is_zero value.started_at) (error "started_at: must be set")
  validate_capabilities value.capabilities

-- `time.Duration(seconds) * time.Second`
unfoldable pub heartbeat_interval : ℤ → ℤ
unfolding ◌*ℤ◌
heartbeat_interval seconds = wrap_int64 (seconds *ℤ pos second)

unfoldable pub validate_center_hello : CenterHello → Check
validate_center_hello value = do
  reject_if (not (match_string message_id_pattern value.session_id))
      (error "session_id: invalid session ID")
  let interval = heartbeat_interval value.heartbeat_interval_seconds
  reject_if
      (ltb_ℤ interval (pos minimum_heartbeat_interval)
        || ltb_ℤ (pos maximum_heartbeat_interval) interval)
      (errorf "heartbeat_interval_seconds: must be between %d and %d" (num 5 (num 300 nil)))
  reject_if (is_zero value.server_time) (error "server_time: must be set")

unfoldable pub validate_heartbeat : Heartbeat → Check
validate_heartbeat value = do
  reject_if (not (match_string message_id_pattern value.session_id))
      (error "session_id: invalid session ID")
  validate_agent_version value.agent_version
  reject_if (is_zero value.observed_at) (error "observed_at: must be set")

-- `ValidateHeartbeatAck` and `ValidateEnvelope` call each other; each takes the other as an
-- argument here.
check_command : (Envelope → Check) → Option Envelope → Check
check_command validate none = pass
check_command validate (some command) = do
  reject_if (not (beq command.type_name message_center_command))
      (error "command: must contain a center command envelope")
  or_else_error (validate command) (wrapf "command: %w")

unfoldable pub validate_heartbeat_ack_by : (Envelope → Check) → HeartbeatAck → Check
unfolding check_command
validate_heartbeat_ack_by validate value = do
  reject_if (not (match_string message_id_pattern value.message_id))
      (error "message_id: invalid message ID")
  reject_if (is_zero value.server_time) (error "server_time: must be set")
  check_command validate value.command

-- The JSON encoding of each payload.
pub record Codecs : Type 0 where
  pub agent_hello : Codec AgentHello
  pub center_hello : Codec CenterHello
  pub heartbeat : Codec Heartbeat
  pub heartbeat_ack : Codec HeartbeatAck
  pub command : Codec Command
  pub command_result : Codec CommandResult
  pub command_result_ack : Codec CommandResultAck
  pub problem : Codec Problem

-- `DecodeEnvelopePayload`
unfoldable pub decode_envelope_payload {ℓ} : {A : Type ℓ} → Codec A → Envelope → Result A
decode_envelope_payload codec value =
    or_else_error (decode_strict codec value.payload)
      (λ e. errorf "decode %s payload: %w" (text value.type_name (cause e nil)))

-- Decode the payload and check it.
abbrev pub decoded {ℓ} : {A : Type ℓ} → Codec A → Envelope → (A → Check) → Check
decoded codec value check = decode_envelope_payload codec value >>= check

module _ (codecs : Codecs) where
  -- The `switch` on the type.
  unfoldable pub validate_payload : (Envelope → Check) → Envelope → Check
  validate_payload validate value =
      if beq value.type_name message_agent_hello
      then decoded codecs.agent_hello value validate_agent_hello
      else if beq value.type_name message_center_hello
      then decoded codecs.center_hello value validate_center_hello
      else if beq value.type_name message_agent_heartbeat
      then decoded codecs.heartbeat value validate_heartbeat
      else if beq value.type_name message_center_heartbeat_ack
      then decoded codecs.heartbeat_ack value (validate_heartbeat_ack_by validate)
      else if beq value.type_name message_center_command
      then decoded codecs.command value (λ payload. do
        or_else_error (validate_idempotency_key value.idempotency_key) (wrapf "center command: %w")
        validate_command payload)
      else if beq value.type_name message_agent_command_result
      then decoded codecs.command_result value (λ payload. do
        reject_if (not (beq value.idempotency_key payload.command_id))
            (error "idempotency_key: must match command_id")
        validate_command_result payload)
      else if beq value.type_name message_center_command_result_ack
      then decoded codecs.command_result_ack value (λ payload. do
        reject_if (beq value.correlation_id [])
            (error "correlation_id: required for command result acknowledgement")
        validate_command_result_ack payload)
      else if beq value.type_name message_protocol_error
      then decoded codecs.problem value validate_problem
      else err (errorf "type: unsupported Agent message type %q" (text value.type_name nil))

  unfoldable pub validate_envelope_by : (Envelope → Check) → Envelope → Check
  validate_envelope_by validate value = do
    Protocol.validate_envelope_version value agent_api_version
    validate_payload validate value

  -- The recursion on fuel. Two levels are enough: `Agent.Messages.Depth`.
  unfoldable pub validate_envelope_within : ℕ → Envelope → Check
  validate_envelope_within zero value = err (error "model: out of fuel")
  validate_envelope_within (suc fuel) value =
      validate_envelope_by (validate_envelope_within fuel) value

  unfoldable pub validate_envelope : Envelope → Check
  unfolding validate_envelope_within
  validate_envelope value = validate_envelope_within 2 value

  unfoldable pub validate_heartbeat_ack : HeartbeatAck → Check
  validate_heartbeat_ack value = validate_heartbeat_ack_by validate_envelope value

  -- `NewEnvelope` of agent/v1; the payload is encoded by the caller's codec.
  unfoldable pub new_envelope : RandomSource → Time → Bytes → Result Bytes → Result Envelope
  new_envelope random now message_type encoded =
      Protocol.new_envelope_for random now agent_api_version message_type encoded

  unfoldable pub new_command_envelope : RandomSource → Time → Bytes → Command → Result Envelope
  new_command_envelope random now command_id value = do
    or_else_error (validate_idempotency_key command_id)
        (λ _. error "command_id: invalid command ID")
    fresh ← new_envelope random now message_center_command (codecs.command.marshal value)
    let envelope : Envelope = record fresh { idempotency_key = command_id }
    validate_envelope envelope
    ok envelope

  unfoldable pub new_command_result_envelope : RandomSource → Time → CommandResult → Result Envelope
  new_command_result_envelope random now value = do
    validate_command_result value
    fresh ←
        new_envelope random now message_agent_command_result (codecs.command_result.marshal value)
    let envelope : Envelope = record fresh { idempotency_key = value.command_id }
    validate_envelope envelope
    ok envelope

  unfoldable pub new_command_result_ack_envelope :
      RandomSource → Time → Bytes → CommandResultAck → Result Envelope
  new_command_result_ack_envelope random now result_message_id value = do
    validate_command_result_ack value
    fresh ←
        new_envelope random now message_center_command_result_ack
          (codecs.command_result_ack.marshal value)
    let envelope : Envelope = record fresh { correlation_id = result_message_id }
    validate_envelope envelope
    ok envelope
