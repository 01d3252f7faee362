-- ===== src/Agent/Update.antt =====
-- agent/v1/update.go: the command that updates the Agent, and its output.
pub mod RoundTrip
use relayward_sdk.Base.{
  not, Bytes, codes, beq, errorf, nil, text, wrapf, Check, Result, ok, ◌>>◌, ◌>>=◌, reject_if,
  or_else_error,
}
use relayward_sdk.Clock.{Time, utc}
use relayward_sdk.Json.{Codec, decode_strict}
use relayward_sdk.Contract.{validate_semantic_version}
use relayward_sdk.Agent.Commands.{Command, validate_command}

abbrev pub command_agent_update : Bytes
command_agent_update = codes "agent.update"

abbrev pub agent_update_state_activated : Bytes
agent_update_state_activated = codes "activated"

pub record AgentUpdateCommand : Type 0 where
  pub version : Bytes

pub record AgentUpdateOutput : Type 0 where
  pub version : Bytes
  pub state : Bytes

unfoldable pub validate_agent_update_command : AgentUpdateCommand → Check
validate_agent_update_command value =
    or_else_error (validate_semantic_version value.version) (wrapf "version: %w")

unfoldable pub validate_agent_update_output : AgentUpdateOutput → Check
validate_agent_update_output value = do
  or_else_error (validate_semantic_version value.version) (wrapf "version: %w")
  reject_if (not (beq value.state agent_update_state_activated))
      (errorf "state: unsupported value %q" (text value.state nil))

unfoldable pub new_agent_update_command :
    Codec AgentUpdateCommand → Bytes → Time → Time → Result Command
new_agent_update_command codec version issued_at expires_at = do
  let payload : AgentUpdateCommand = record { version = version }
  validate_agent_update_command payload
  raw ← or_else_error (codec.marshal payload) (wrapf "encode Agent update command: %w")
  let value : Command = record {
    kind = command_agent_update;
    issued_at = utc issued_at;
    expires_at = utc expires_at;
    payload = raw;
  }
  validate_command value
  ok value

unfoldable pub decode_agent_update_command :
    Codec AgentUpdateCommand → Command → Result AgentUpdateCommand
decode_agent_update_command codec value = do
  validate_command value
  reject_if (not (beq value.kind command_agent_update))
      (errorf "kind: must be %q" (text command_agent_update nil))
  payload ←
      or_else_error (decode_strict codec value.payload) (wrapf "decode Agent update command: %w")
  validate_agent_update_command payload
  ok payload

unfoldable pub encode_agent_update_output :
    Codec AgentUpdateOutput → AgentUpdateOutput → Result Bytes
encode_agent_update_output codec value = do
  validate_agent_update_output value
  or_else_error (codec.marshal value) (wrapf "encode Agent update output: %w")

unfoldable pub decode_agent_update_output :
    Codec AgentUpdateOutput → Bytes → Result AgentUpdateOutput
decode_agent_update_output codec raw = do
  value ← or_else_error (decode_strict codec raw) (wrapf "decode Agent update output: %w")
  validate_agent_update_output value
  ok value
