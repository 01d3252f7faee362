-- ===== src/Fixture/Center/Calls.antt =====
-- pluginfixture/plugin.go: `InvokeUI`, `RenderSubscription` and `ConsumeEvents` of the center
-- plugin, which read the state at most.
use relayward_sdk.Base.{
  ℕ, zero, suc, true, List, [], ◌∷◌, ◌++◌, Option, none, some, map, Bytes, codes, beq, length,
  if◌then◌else◌, Result, ok, err, ◌>>◌, ◌>>=◌, or_else_error,
}
use relayward_sdk.Agent.Plugins.{ParseUrl}
use relayward_sdk.CenterPlugin.Ui.{InvokeUiRequest, InvokeUiResponse, validate_invoke_ui_request}
use relayward_sdk.CenterPlugin.Services.{ReplaceServicesRequest}
use relayward_sdk.CenterPlugin.Notification.{event_notification_request}
use relayward_sdk.CenterPlugin.Publish.{PublishedEvent}
use relayward_sdk.CenterPlugin.Subscription.{
  SubscriptionServiceBinding, RenderSubscriptionRequest, SubscriptionServiceContribution,
  RenderSubscriptionResponse, validate_render_subscription_request,
  validate_render_subscription_response,
}
use relayward_sdk.CenterPlugin.Consume.{
  ConsumeEventsRequest, EventsConsumed, validate_consume_events_request, last_cursor,
  validate_events_consumed,
}
use relayward_sdk.Fixture.{invalid_argument}
use relayward_sdk.Fixture.Center.{CenterPlugin, Host, Formats, EventInput, unavailable, internal}

-- `strings.Repeat`
unfoldable pub repeat : Bytes → ℕ → Bytes
repeat text zero = []
repeat text (suc n) = text ++ repeat text n

-- What `services.replace` and `events.publish` send to the host.
unfoldable pub contract_services : Bytes → ReplaceServicesRequest
unfolding repeat
contract_services node_id = record {
  node_id = node_id;
  services =
      some (record {
        id = codes "contract-main";
        display_name = codes "Contract service";
        enabled = true;
        capabilities = codes "subscription.render" ∷ [];
        subscription_sha256 = repeat (codes "a") 64;
      })
      ∷ [];
}

abbrev pub contract_notification : Bytes
contract_notification =
    codes
      "{\"severity\":\"info\",\"subject\":\"Contract event\",\"body\":\"The contract plugin published a test event.\"}"

unfoldable pub contract_event : EventInput → PublishedEvent
contract_event input = record {
  source_event_id = input.source_event_id;
  node_id = input.node_id;
  kind = event_notification_request;
  observed_at_unix_nano = input.observed_at_unix_nano;
  json = contract_notification;
}

module _ (host : Host) (formats : Formats) where
  nodes_summary : ℕ → Result InvokeUiResponse
  nodes_summary connection = do
    nodes ← host.list_nodes connection
    ok (record { json = formats.counts ((codes "count", length nodes.nodes) ∷ []) })

  status_read : CenterPlugin → Result InvokeUiResponse
  status_read plugin = ok (record {
    json =
        formats.texts
          ((codes "plugin_id", plugin.plugin_id) ∷ (codes "version", plugin.version) ∷ []);
  })

  services_replace : ℕ → Bytes → Result InvokeUiResponse
  services_replace connection json = do
    node_id ←
        or_else_error (formats.node_input json)
          (λ _. invalid_argument "invalid service replacement")
    response ← host.replace_services connection (contract_services node_id)
    ok (record { json = formats.counts ((codes "service_count", response.service_count) ∷ []) })

  events_publish : ℕ → Bytes → Result InvokeUiResponse
  events_publish connection json = do
    input ←
        or_else_error (formats.event_input json) (λ _. invalid_argument "invalid event publication")
    response ← host.publish_events connection (record { events = some (contract_event input) ∷ [] })
    ok (record { json = formats.counts ((codes "event_count", response.event_count) ∷ []) })

  -- The switch over the method.
  invoke_method : CenterPlugin → ℕ → InvokeUiRequest → Result InvokeUiResponse
  unfolding nodes_summary status_read services_replace events_publish
  invoke_method plugin connection request =
      if beq request.method (codes "nodes.summary")
      then nodes_summary connection
      else if beq request.method (codes "status.read")
      then status_read plugin
      else if beq request.method (codes "services.replace")
      then services_replace connection request.json
      else if beq request.method (codes "events.publish")
      then events_publish connection request.json
      else err (invalid_argument "unsupported UI method")

  invoke_on : CenterPlugin → Option ℕ → InvokeUiRequest → Result InvokeUiResponse
  unfolding invoke_method
  invoke_on plugin none request = err (unavailable "plugin Host is unavailable")
  invoke_on plugin (some connection) request = invoke_method plugin connection request

  unfoldable pub invoke_ui : CenterPlugin → Option InvokeUiRequest → Result InvokeUiResponse
  unfolding invoke_on
  invoke_ui plugin none = err (invalid_argument "invalid UI request")
  invoke_ui plugin (some request) = do
    or_else_error (validate_invoke_ui_request (some request))
        (λ _. invalid_argument "invalid UI request")
    invoke_on plugin plugin.host request

-- One round of the loop over the services.
unfoldable pub contribution :
    Formats → Bytes → SubscriptionServiceBinding → SubscriptionServiceContribution
contribution formats authorization_id service =
    let name = service.display_name ++ codes " / Contract" in
    let entries : List (Bytes × Bytes) =
      (codes "type", codes "relayward-test")
      ∷ (codes "server", codes "fixture.example.com")
      ∷ (codes "authorization_id", authorization_id)
      ∷ (codes "service_id", service.service_id)
      ∷ [] in
    record {
      service_id = service.service_id;
      display_name = name;
      uris = formats.fixture_url authorization_id (codes "/" ++ service.service_id) name ∷ [];
      mihomo_proxies_json = formats.texts ((codes "name", name) ∷ entries) ∷ [];
      sing_box_outbounds_json = formats.texts ((codes "tag", name) ∷ entries) ∷ [];
    }

-- An accepted request has no service that is nil.
unfoldable pub contribution_of :
    Formats → Bytes → Option SubscriptionServiceBinding → Option SubscriptionServiceContribution
contribution_of formats authorization_id none = none
contribution_of formats authorization_id (some service) =
    some (contribution formats authorization_id service)

unfoldable pub render_subscription :
    ParseUrl → Formats → Option RenderSubscriptionRequest → Result RenderSubscriptionResponse
unfolding contribution_of
render_subscription parse_url formats none = err (invalid_argument "invalid subscription request")
render_subscription parse_url formats (some request) = do
  or_else_error (validate_render_subscription_request (some request))
      (λ _. invalid_argument "invalid subscription request")
  let response : RenderSubscriptionResponse = record {
    services = map (contribution_of formats request.authorization_id) request.services;
  }
  or_else_error (validate_render_subscription_response parse_url (some request) (some response))
      (λ _. internal "generated subscription is invalid")
  ok response

unfoldable pub consume_events : Option ConsumeEventsRequest → Result EventsConsumed
consume_events none = err (invalid_argument "invalid event batch")
consume_events (some request) = do
  or_else_error (validate_consume_events_request (some request))
      (λ _. invalid_argument "invalid event batch")
  let response : EventsConsumed = record { through_cursor = last_cursor request.events }
  or_else_error (validate_events_consumed (some request) (some response))
      (λ _. internal "generated event acknowledgement is invalid")
  ok response
