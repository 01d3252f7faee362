-- ===== src/Agent/Plugins/RoundTrip.antt =====
-- The command to reconcile a plugin decodes to what it was made of.
use relayward_sdk.Base.{◌≡◌, Bytes, arith, beq_refl, ok, pass}
use relayward_sdk.Clock.{Time, utc}
use relayward_sdk.Json.{Codec, RoundTrips, decode_strict-marshal}
use relayward_sdk.Agent.Commands.{Command, validate_command}
use relayward_sdk.Agent.Plugins.{
  ParseUrl, PluginReconcileCommand, command_plugin_reconcile, new_plugin_reconcile_command,
  decode_plugin_reconcile_command,
}

-- Where the codec reads back what it wrote, a command that `NewPluginReconcileCommand` returns is
-- one that `ValidateCommand` accepts, is issued and expires at the given instants, and decodes to
-- the value given.
pub decode-new_plugin_reconcile_command :
    (parse_url : ParseUrl) (codec : Codec PluginReconcileCommand) (value : PluginReconcileCommand)
    (issued_at expires_at : Time) (raw : Bytes) (command : Command)
    → RoundTrips codec value raw
    → new_plugin_reconcile_command parse_url codec value issued_at expires_at ≡ ok command
    → (validate_command command ≡ pass)
      × (command.issued_at ≡ utc issued_at)
      × (command.expires_at ≡ utc expires_at)
      × (decode_plugin_reconcile_command parse_url codec command ≡ ok value)
unfolding new_plugin_reconcile_command decode_plugin_reconcile_command
decode-new_plugin_reconcile_command parse_url codec value issued_at expires_at raw command law h =
    ground (arith, law.encodes, decode_strict-marshal law, beq_refl command_plugin_reconcile)
