-- ===== src/Fixture/Center.antt =====
-- pluginfixture/plugin.go: the center plugin of the contract tests. The host on the other end of a
-- connection, the encoder and the decoders of encoding/json and `url.URL.String` are parameters.
pub mod Calls
pub mod Connections
pub mod Moves
pub mod Activation
pub mod Answers
pub mod Sent
pub mod Rendered
mod Tests
use relayward_sdk.Base.{
  ℕ, zero, suc, ◌+◌, Bool, true, false, List, [], ◌∷◌, ◌++◌, Option, none, some, map, Bytes, codes,
  beq, lt_bytes, length, if◌then◌else◌, Error, errorf, nil, num, String, Result, ok, err, ◌>>◌,
  ◌>>=◌, Check, or_else_error, reject_if,
}
use relayward_sdk.Base.Int.{ℤ}
use relayward_sdk.Contract.{center_plugin_api_version}
use relayward_sdk.Agent.Plugins.{ParseUrl}
use relayward_sdk.CenterPlugin.Info.{
  GetInfoResponse, ActivateRequest, Activated, GetStatusResponse, permission_nodes_read,
  health_starting, health_healthy, validate_activate_request,
}
use relayward_sdk.CenterPlugin.Ui.{
  InvokeUiRequest, InvokeUiResponse, ListNodesResponse, validate_invoke_ui_request,
}
use relayward_sdk.CenterPlugin.Services.{PluginService, ReplaceServicesRequest, ServicesReplaced}
use relayward_sdk.CenterPlugin.Notification.{event_notification_request}
use relayward_sdk.CenterPlugin.Publish.{PublishedEvent, PublishEventsRequest, EventsPublished}
use relayward_sdk.CenterPlugin.Subscription.{
  SubscriptionServiceBinding, RenderSubscriptionRequest, SubscriptionServiceContribution,
  RenderSubscriptionResponse, validate_render_subscription_request,
  validate_render_subscription_response,
}
use relayward_sdk.CenterPlugin.Consume.{
  ConsumeEventsRequest, EventsConsumed, validate_consume_events_request, last_cursor,
  validate_events_consumed,
}
use relayward_sdk.Fixture.{invalid_argument}

-- Connections to the host are numbered in the order in which they are made.
pub record CenterPlugin : Type 0 where
  pub plugin_id : Bytes
  pub version : Bytes
  pub active : Bool
  pub host : Option ℕ

-- The connections outside the plugin: how many were made, and which of them it closed.
pub record Network : Type 0 where
  pub opened : ℕ
  pub closed : List ℕ

-- What the host does: whether a client for it can be made, and its answer to a call on a connection.
pub record Host : Type 0 where
  pub reachable : Bool
  pub list_nodes : ℕ → Result ListNodesResponse
  pub replace_services : ℕ → ReplaceServicesRequest → Result ServicesReplaced
  pub publish_events : ℕ → PublishEventsRequest → Result EventsPublished

pub record EventInput : Type 0 where
  pub node_id : Bytes
  pub source_event_id : Bytes
  pub observed_at_unix_nano : ℤ

-- `json.Marshal` of maps to texts and to numbers, given as their entries; `json.Unmarshal` into the
-- two inputs; and `String` of a URL with a user, a path and a fragment.
pub record Formats : Type 0 where
  pub texts : List (Bytes × Bytes) → Bytes
  pub counts : List (Bytes × ℕ) → Bytes
  pub node_input : Bytes → Result Bytes
  pub event_input : Bytes → Result EventInput
  pub fixture_url : Bytes → Bytes → Bytes → Bytes

-- `status.Error` with the codes 14 and 13.
abbrev pub unavailable : String → Error
unavailable message = errorf message (num 14 nil)

abbrev pub internal : String → Error
internal message = errorf message (num 13 nil)

-- What `runCenter` registers.
unfoldable pub start : Bytes → Bytes → CenterPlugin
start plugin_id version = record {
  plugin_id = plugin_id;
  version = version;
  active = false;
  host = none;
}

unfoldable pub get_info : CenterPlugin → GetInfoResponse
get_info plugin = record {
  api_version = center_plugin_api_version;
  plugin_id = plugin.plugin_id;
  version = plugin.version;
}

-- `sort.Strings`
insert : Bytes → List Bytes → List Bytes
insert value [] = value ∷ []
insert value (next ∷ rest) =
    let more = insert value rest in if lt_bytes next value then next ∷ more else value ∷ next ∷ rest

unfoldable pub sort_strings : List Bytes → List Bytes
unfolding insert
sort_strings [] = []
sort_strings (value ∷ rest) = insert value (sort_strings rest)

unfoldable pub contains : List Bytes → Bytes → Bool
contains [] wanted = false
contains (value ∷ rest) wanted = if beq value wanted then true else contains rest wanted

-- `grpc.NewClient` and `Close`.
unfoldable pub open_connection : Network → Network
open_connection network = record network { opened = network.opened + 1 }

unfoldable pub close_connection : ℕ → Network → Network
close_connection connection network = record network { closed = connection ∷ network.closed }

close_host : Option ℕ → Network → Network
close_host none network = network
close_host (some connection) network = close_connection connection network

-- The critical section of `Activate`: the new connection takes the place of the old one.
unfoldable pub install : ℕ → CenterPlugin → Network → CenterPlugin × Network
unfolding close_host
install connection plugin network = (
  record {
    plugin_id = plugin.plugin_id;
    version = plugin.version;
    active = true;
    host = some connection;
  },
  close_host plugin.host network,
)

activated : ℕ → CenterPlugin → Network → List Bytes → (CenterPlugin × Network) × Result Activated
activated connection plugin network permissions =
    (install connection plugin network, ok (record { permissions = permissions }))

-- What follows `NewClient`, on the connection it made.
pub connected :
    Host → ℕ → CenterPlugin → Network → List Bytes → (CenterPlugin × Network) × Result Activated
unfolding activated
connected host connection plugin network permissions =
    if contains permissions permission_nodes_read
    then elim (host.list_nodes connection) [
      | ok _ ↦ activated connection plugin network permissions
      | err e ↦ ((plugin, close_connection connection network), err e)
    ]
    else activated connection plugin network permissions

dialled : Host → CenterPlugin → Network → List Bytes → (CenterPlugin × Network) × Result Activated
unfolding connected
dialled host plugin network permissions =
    if host.reachable
    then connected host network.opened plugin (open_connection network) permissions
    else ((plugin, network), err (unavailable "plugin Host is unavailable"))

-- The state and the connections after the call, and its answer.
unfoldable pub activate :
    Host
    → CenterPlugin
    → Network
    → Option ActivateRequest
    → (CenterPlugin × Network) × Result Activated
unfolding dialled
activate host plugin network none = ((plugin, network), err (invalid_argument "invalid activation"))
activate host plugin network (some request) = elim (validate_activate_request (some request)) [
  | ok _ ↦ dialled host plugin network (sort_strings request.permissions)
  | err _ ↦ ((plugin, network), err (invalid_argument "invalid activation"))
]

unfoldable pub get_status : CenterPlugin → GetStatusResponse
get_status plugin = record {
  health = if plugin.active then health_healthy else health_starting;
  message = [];
}
