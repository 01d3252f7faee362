-- ===== src/Conformance/Command.antt =====
-- cmd/relayward-conformance/main.go: the command that checks one contract file. Output is kept as
-- what is printed, not as text.
pub mod Exit
use relayward_sdk.Base.{
  ℕ, Bool, List, [], ◌∷◌, Option, none, some, Bytes, codes, beq, if◌then◌else◌, Error, Check,
  Result, ok, err, pass,
}
use relayward_sdk.Json.{Codec}
use relayward_sdk.Policy.{LoadLocation}
use relayward_sdk.Agent.Plugins.{ParseUrl}
use relayward_sdk.Agent.Telemetry.{ParseIp}
use relayward_sdk.NodePlugin.Info as NodeInfo
use relayward_sdk.CenterPlugin.Info as CenterInfo
use relayward_sdk.CenterPlugin.Info.{ActivateRequest, GetStatusResponse}
use relayward_sdk.CenterPlugin.Ui.{InvokeUiRequest, ListNodesResponse}
use relayward_sdk.CenterPlugin.Services.{ReplaceServicesRequest}
use relayward_sdk.CenterPlugin.Notification.{NotificationRequest}
use relayward_sdk.CenterPlugin.Publish.{PublishEventsRequest, EventsPublished}
use relayward_sdk.CenterPlugin.Consume.{ConsumeEventsRequest, EventsConsumed}
use relayward_sdk.CenterPlugin.Subscription.{RenderSubscriptionRequest, RenderSubscriptionResponse}
use relayward_sdk.Conformance.Files.{FileSystem, Unmarshal}
use relayward_sdk.Conformance.Agent.{
  AgentFormats, load_manifest, load_agent_register_request, load_agent_event_batch,
  load_agent_event_batch_ack, load_agent_plugin_reconcile_command, load_agent_plugin_status,
  load_agent_policy_reconcile_command, load_agent_traffic_snapshot, load_agent_access_event,
  load_envelope, load_agent_envelope,
}
use relayward_sdk.Conformance.Plugins.{
  load_node_plugin_info, load_center_plugin_info, load_center_plugin_activation,
  load_center_plugin_status, load_center_plugin_ui_request, load_center_plugin_nodes,
  load_center_plugin_services,
}
use relayward_sdk.Conformance.Fixtures.{
  RawExchange, RawPublication, load_center_plugin_events, load_center_plugin_published_events,
  load_center_plugin_subscription,
}
use relayward_sdk.Conformance.Release.{verify_plugin_release}

-- The decoders of protojson, and those of encoding/json for exchanges.
pub record PluginFormats : Type 0 where
  pub node_info : Unmarshal NodeInfo.GetInfoResponse
  pub center_info : Unmarshal CenterInfo.GetInfoResponse
  pub activate : Unmarshal ActivateRequest
  pub status : Unmarshal GetStatusResponse
  pub invoke_ui : Unmarshal InvokeUiRequest
  pub nodes : Unmarshal ListNodesResponse
  pub services : Unmarshal ReplaceServicesRequest
  pub exchange : Codec RawExchange
  pub publication : Codec RawPublication
  pub notification : Codec NotificationRequest
  pub render_request : Unmarshal RenderSubscriptionRequest
  pub render_response : Unmarshal RenderSubscriptionResponse
  pub consume_request : Unmarshal ConsumeEventsRequest
  pub consumed : Unmarshal EventsConsumed
  pub publish_request : Unmarshal PublishEventsRequest
  pub published : Unmarshal EventsPublished

-- What the program is run with.
pub record Environment : Type 0 where
  pub files : FileSystem
  pub agent : AgentFormats
  pub plugins : PluginFormats
  pub sha256 : Bytes → Bytes
  pub load_location : LoadLocation
  pub parse_url : ParseUrl
  pub parse_ip : ParseIp

-- `_, err = load(path)`
abbrev pub error_of : {A : Type 0} → Result A → Check
error_of (ok value) = pass
error_of (err e) = err e

-- The cases of the switch.
unfoldable pub commands : Environment → List (Bytes × (Bytes → Check))
commands e =
    (codes "manifest", λ path. error_of (load_manifest e.files e.agent path))
    ∷ (codes "envelope", λ path. error_of (load_envelope e.files e.agent path))
    ∷ (codes "agent-register", λ path. error_of (load_agent_register_request e.files e.agent path))
    ∷ (codes "agent-envelope", λ path. error_of (load_agent_envelope e.files e.agent path))
    ∷ (
      codes "agent-event-batch",
      λ path. error_of (load_agent_event_batch e.files e.agent e.sha256 path),
    )
    ∷ (codes "agent-event-ack", λ path. error_of (load_agent_event_batch_ack e.files e.agent path))
    ∷ (
      codes "agent-plugin-reconcile",
      λ path. error_of (load_agent_plugin_reconcile_command e.files e.agent e.parse_url path),
    )
    ∷ (
      codes "agent-plugin-status",
      λ path. error_of (load_agent_plugin_status e.files e.agent path),
    )
    ∷ (
      codes "agent-policy-reconcile",
      λ path.
          error_of
            (load_agent_policy_reconcile_command e.files e.agent e.load_location e.sha256 path),
    )
    ∷ (
      codes "agent-traffic-snapshot",
      λ path. error_of (load_agent_traffic_snapshot e.files e.agent e.sha256 path),
    )
    ∷ (
      codes "agent-access-event",
      λ path. error_of (load_agent_access_event e.files e.agent e.parse_ip path),
    )
    ∷ (
      codes "node-plugin-info",
      λ path. error_of (load_node_plugin_info e.files e.plugins.node_info path),
    )
    ∷ (
      codes "center-plugin-info",
      λ path. error_of (load_center_plugin_info e.files e.plugins.center_info path),
    )
    ∷ (
      codes "center-plugin-activation",
      λ path. error_of (load_center_plugin_activation e.files e.plugins.activate path),
    )
    ∷ (
      codes "center-plugin-status",
      λ path. error_of (load_center_plugin_status e.files e.plugins.status path),
    )
    ∷ (
      codes "center-plugin-ui",
      λ path. error_of (load_center_plugin_ui_request e.files e.plugins.invoke_ui path),
    )
    ∷ (
      codes "center-plugin-nodes",
      λ path. error_of (load_center_plugin_nodes e.files e.plugins.nodes path),
    )
    ∷ (
      codes "center-plugin-services",
      λ path. error_of (load_center_plugin_services e.files e.plugins.services path),
    )
    ∷ (
      codes "center-plugin-subscription",
      λ path. error_of (
          load_center_plugin_subscription e.files e.parse_url e.plugins.exchange
            e.plugins.render_request e.plugins.render_response path),
    )
    ∷ (
      codes "center-plugin-events",
      λ path. error_of (
          load_center_plugin_events e.files e.plugins.exchange e.plugins.consume_request
            e.plugins.consumed path),
    )
    ∷ (
      codes "center-plugin-published-events",
      λ path. error_of (
          load_center_plugin_published_events e.files e.plugins.publication e.plugins.notification
            e.plugins.publish_request e.plugins.published path),
    )
    ∷ (
      codes "plugin-release",
      λ path. error_of (verify_plugin_release e.files e.sha256 e.agent path),
    )
    ∷ []

-- The case of a command; none for `default`.
unfoldable pub find_command : List (Bytes × (Bytes → Check)) → Bytes → Option (Bytes → Check)
find_command [] name = none
find_command ((command, check) ∷ rest) name =
    if beq name command then some check else find_command rest name

pub data Output : Type 0 where
  version_text : Bytes → Output
  usage_text : Output
  failure : Bytes → Error → Output
  success : Bytes → Bytes → Output

-- The exit code, and what is printed: usage and failures on the error stream.
pub record Outcome : Type 0 where
  pub exit : ℕ
  pub output : Output

report : Bytes → Bytes → Check → Outcome
report name path (ok _) = record { exit = 0; output = success name path }
report name path (err e) = record { exit = 1; output = failure name e }

run_command : Bytes → Bytes → Option (Bytes → Check) → Outcome
unfolding report
run_command name path none = record { exit = 2; output = usage_text }
run_command name path (some check) = report name path (check path)

unfoldable pub run : Environment → Bytes → List Bytes → Outcome
unfolding run_command
run e version [] = record { exit = 2; output = usage_text }
run e version (name ∷ []) =
    if beq name (codes "version")
    then record { exit = 0; output = version_text version }
    else record { exit = 2; output = usage_text }
run e version (name ∷ path ∷ []) = run_command name path (find_command (commands e) name)
run e version (name ∷ path ∷ _ ∷ _) = record { exit = 2; output = usage_text }
