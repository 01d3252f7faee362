-- ===== src/Agent/Update/RoundTrip.antt =====
-- The command to update the Agent decodes to what it was made of.
use relayward_sdk.Base.{◌≡◌, Bytes, arith, beq, beq_refl, ok, pass}
use relayward_sdk.Clock.{Time, utc}
use relayward_sdk.Json.{Codec, RoundTrips, decode_strict-marshal}
use relayward_sdk.Agent.Commands.{Command, validate_command}
use relayward_sdk.Agent.Update.{
  AgentUpdateCommand, command_agent_update, new_agent_update_command, decode_agent_update_command,
}

-- Where the codec reads back what it wrote, a command that `NewAgentUpdateCommand` returns is one
-- that `ValidateCommand` accepts, is issued and expires at the given instants, and decodes to the
-- version given.
pub decode-new_agent_update_command :
    (codec : Codec AgentUpdateCommand) (version : Bytes) (issued_at expires_at : Time) (raw : Bytes)
    (command : Command)
    → RoundTrips codec (record { version = version }) raw
    → new_agent_update_command codec version issued_at expires_at ≡ ok command
    → (validate_command command ≡ pass)
      × (command.issued_at ≡ utc issued_at)
      × (command.expires_at ≡ utc expires_at)
      × (decode_agent_update_command codec command ≡ ok (record { version = version }))
unfolding new_agent_update_command decode_agent_update_command beq
decode-new_agent_update_command codec version issued_at expires_at raw command law h =
    ground (arith, law.encodes, decode_strict-marshal law, beq_refl command_agent_update)
