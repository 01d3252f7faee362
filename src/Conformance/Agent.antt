-- ===== src/Conformance/Agent.antt =====
-- conformance/load.go: the loaders of manifests, envelopes and messages of the Agent.
use relayward_sdk.Base.{Bytes, Result, ok, ◌>>◌, ◌>>=◌, or_else_error, wrapf}
use relayward_sdk.Json.{Codec}
use relayward_sdk.Manifest.{Manifest}
use relayward_sdk.Manifest.Decode.{decode}
use relayward_sdk.Policy.{LoadLocation}
use relayward_sdk.Protocol
use relayward_sdk.Protocol.{Envelope}
use relayward_sdk.Agent.Register.{RegisterRequest, decode_register_request}
use relayward_sdk.Agent.Commands.{Command}
use relayward_sdk.Agent.Messages
use relayward_sdk.Agent.Messages.{Codecs}
use relayward_sdk.Agent.Events.{
  EventBatch, EventBatchAck, decode_event_batch, decode_event_batch_ack,
}
use relayward_sdk.Agent.Plugins.{ParseUrl, PluginReconcileCommand, decode_plugin_reconcile_command}
use relayward_sdk.Agent.PluginState.{PluginStatusEvent, validate_plugin_status_event}
use relayward_sdk.Agent.Policies.{PolicyReconcileCommand, decode_policy_reconcile_command}
use relayward_sdk.Agent.Telemetry.{
  ParseIp, TrafficSnapshotEvent, AccessEvent, validate_traffic_snapshot_event,
  validate_access_event,
}
use relayward_sdk.Conformance.Files.{FileSystem, open_contract_file, decode_contract_json}

-- The decoders of encoding/json, one for each type that is read.
pub record AgentFormats : Type 0 where
  pub manifest : Codec Manifest
  pub envelope : Codec Envelope
  pub payloads : Codecs
  pub register_request : Codec RegisterRequest
  pub event_batch : Codec EventBatch
  pub event_batch_ack : Codec EventBatchAck
  pub command : Codec Command
  pub plugin_reconcile : Codec PluginReconcileCommand
  pub plugin_status : Codec PluginStatusEvent
  pub policy_reconcile : Codec PolicyReconcileCommand
  pub traffic_snapshot : Codec TrafficSnapshotEvent
  pub access_event : Codec AccessEvent

module _ (files : FileSystem) (formats : AgentFormats) where
  unfoldable pub load_manifest : Bytes → Result Manifest
  load_manifest path = do
    file ← or_else_error (open_contract_file files path) (wrapf "open manifest: %w")
    decode formats.manifest file.content

  unfoldable pub load_agent_register_request : Bytes → Result RegisterRequest
  load_agent_register_request path = do
    file ←
        or_else_error (open_contract_file files path) (wrapf "open Agent registration request: %w")
    raw ← or_else_error file.content (wrapf "decode Agent registration request: %w")
    decode_register_request formats.register_request raw

  unfoldable pub load_agent_event_batch : (Bytes → Bytes) → Bytes → Result EventBatch
  load_agent_event_batch sha256 path = do
    file ← or_else_error (open_contract_file files path) (wrapf "open Agent event batch: %w")
    raw ← or_else_error file.content (wrapf "decode event batch: %w")
    decode_event_batch sha256 formats.event_batch raw

  unfoldable pub load_agent_event_batch_ack : Bytes → Result EventBatchAck
  load_agent_event_batch_ack path = do
    file ←
        or_else_error (open_contract_file files path)
          (wrapf "open Agent event batch acknowledgement: %w")
    raw ← or_else_error file.content (wrapf "decode event batch acknowledgement: %w")
    decode_event_batch_ack formats.event_batch_ack raw

  unfoldable pub load_agent_plugin_reconcile_command : ParseUrl → Bytes → Result Command
  load_agent_plugin_reconcile_command parse_url path = do
    file ← or_else_error (open_contract_file files path) (wrapf "open plugin reconcile command: %w")
    command ←
        or_else_error (decode_contract_json formats.command file)
          (wrapf "decode plugin reconcile command: %w")
    _ ← decode_plugin_reconcile_command parse_url formats.plugin_reconcile command
    ok command

  unfoldable pub load_agent_plugin_status : Bytes → Result PluginStatusEvent
  load_agent_plugin_status path = do
    file ← or_else_error (open_contract_file files path) (wrapf "open plugin status event: %w")
    status ←
        or_else_error (decode_contract_json formats.plugin_status file)
          (wrapf "decode plugin status event: %w")
    validate_plugin_status_event status
    ok status

  unfoldable pub load_agent_policy_reconcile_command :
      LoadLocation → (Bytes → Bytes) → Bytes → Result Command
  load_agent_policy_reconcile_command load_location sha256 path = do
    file ← or_else_error (open_contract_file files path) (wrapf "open policy reconcile command: %w")
    command ←
        or_else_error (decode_contract_json formats.command file)
          (wrapf "decode policy reconcile command: %w")
    _ ← decode_policy_reconcile_command load_location sha256 formats.policy_reconcile command
    ok command

  unfoldable pub load_agent_traffic_snapshot : (Bytes → Bytes) → Bytes → Result TrafficSnapshotEvent
  load_agent_traffic_snapshot sha256 path = do
    file ← or_else_error (open_contract_file files path) (wrapf "open traffic snapshot: %w")
    snapshot ←
        or_else_error (decode_contract_json formats.traffic_snapshot file)
          (wrapf "decode traffic snapshot: %w")
    validate_traffic_snapshot_event sha256 snapshot
    ok snapshot

  unfoldable pub load_agent_access_event : ParseIp → Bytes → Result AccessEvent
  load_agent_access_event parse_ip path = do
    file ← or_else_error (open_contract_file files path) (wrapf "open access event: %w")
    event ←
        or_else_error (decode_contract_json formats.access_event file)
          (wrapf "decode access event: %w")
    validate_access_event parse_ip event
    ok event

  unfoldable pub load_envelope : Bytes → Result Envelope
  load_envelope path = do
    file ← or_else_error (open_contract_file files path) (wrapf "open envelope: %w")
    envelope ←
        or_else_error (decode_contract_json formats.envelope file) (wrapf "decode envelope: %w")
    Protocol.validate_envelope envelope
    ok envelope

  unfoldable pub load_agent_envelope : Bytes → Result Envelope
  load_agent_envelope path = do
    envelope ← load_envelope path
    Messages.validate_envelope formats.payloads envelope
    ok envelope
